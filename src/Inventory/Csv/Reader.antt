-- ===== src/Inventory/Csv/Reader.antt =====
-- A reader of comma-separated values with quoted fields and lines that end in CR LF (RFC 4180),
-- which the export is measured by.
use safe_dock.Common.{ℕ, List, [], ◌∷◌, ◌++◌, Bool, true, false, Text, ◌==◌, if◌then◌else◌}

-- Where the reader stands: at the start of a field, in a plain field, in quotes, behind a quotation
-- mark in quotes, behind a CR.
pub data Mode : Type 0 where
  start plain quoted closing return : Mode

pub record Reader : Type 0 where
  pub mode : Mode
  pub field : Text
  pub row : List Text
  pub rows : List (List Text)

abbrev pub is_quoted : Mode → Bool
is_quoted quoted = true
is_quoted _ = false

-- The field that would end here: a CR that no LF follows belongs to it.
abbrev pub pending : Mode → Text → Text
pending return field = field ++ 13 ∷ []
pending _ field = field

-- A character outside quotes.
abbrev outside : Reader → ℕ → Reader
outside r c =
    let field = pending r.mode r.field in
    if c == b','
    then record { mode = start; field = []; row = r.row ++ field ∷ []; rows = r.rows }
    else (if c == 13
        then record r { mode = return; field = field }
        else record r { mode = plain; field = field ++ c ∷ [] })

abbrev take_char : Mode → Reader → ℕ → Reader
take_char start r c = if c == b'"' then record r { mode = quoted } else outside r c
take_char plain r c = outside r c
take_char quoted r c =
    if c == b'"' then record r { mode = closing } else record r { field = r.field ++ c ∷ [] }
take_char closing r c =
    if c == b'"' then record r { mode = quoted; field = r.field ++ b'"' ∷ [] } else outside r c
take_char return r c =
    if c == 10
    then record {
      mode = start;
      field = [];
      row = [];
      rows = r.rows ++ (r.row ++ r.field ∷ []) ∷ [];
    }
    else outside r c

unfoldable pub read_char : Reader → ℕ → Reader
read_char r c = take_char r.mode r c

unfoldable pub read : Reader → Text → Reader
read r [] = r
read r (c ∷ s) = read (read_char r c) s

abbrev pub at_start : List Text → List (List Text) → Reader
at_start row rows = record { mode = start; field = []; row = row; rows = rows }

-- The fields of the line that would end here.
abbrev pub last_row : Reader → List Text
last_row r = r.row ++ pending r.mode r.field ∷ []

-- All the lines of a text.
unfoldable pub read_csv : Text → List (List Text)
read_csv s = let r = read (at_start [] []) s in r.rows ++ last_row r ∷ []
