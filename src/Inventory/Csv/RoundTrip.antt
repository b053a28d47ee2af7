-- ===== src/Inventory/Csv/RoundTrip.antt =====
-- Reading the export gives back the table.
use safe_dock.Common.{
  ℕ, ◌≡◌, ◌≢◌, refl, ap, ◌∙◌, arith, List, [], ◌∷◌, ◌++◌, map, false, Text, codes, any,
  append_assoc, append-nil, Bool-cases, inl, inr, All, drop,
}
use safe_dock.Fleet.{Container}
use safe_dock.Inventory.{join}
use safe_dock.Inventory.Csv.{
  needs_quotes, double_quotes, esc, columns, headers, line, crlf, export_csv,
}
use safe_dock.Inventory.Csv.Reader.{
  quoted, closing, Reader, is_quoted, pending, read_char, read, at_start, last_row, read_csv,
}

read-append : (r : Reader) (s t : Text) → read r (s ++ t) ≡ read (read r s) t
unfolding read
read-append r [] t = refl
read-append r (c ∷ s) t = read-append (read_char r c) s t

-- The reader stands outside quotes, behind `field`, in the line `row` behind the lines `rows`.
record IsBehind (field : Text) (row : List Text) (rows : List (List Text)) (r : Reader)
    : Type 0 where
  outside_quotes : is_quoted r.mode ≡ false
  field_eq : pending r.mode r.field ≡ field
  row_eq : r.row ≡ row
  rows_eq : r.rows ≡ rows

module _ (row : List Text) (rows : List (List Text)) where
  -- A character that needs no quotes joins the field.
  read_char-IsBehind :
      (field : Text) (c : ℕ) (r : Reader)
      → needs_quotes c ≡ false
      → IsBehind field row rows r
      → IsBehind (field ++ c ∷ []) row rows (read_char r c)
  unfolding read_char
  read_char-IsBehind field c r h b = ground arith

  read-IsBehind :
      (field s : Text) (r : Reader)
      → any needs_quotes s ≡ false
      → IsBehind field row rows r
      → IsBehind (field ++ s) row rows (read r s)
  unfolding read
  read-IsBehind field [] r h b = rw (append-nil field) b
  read-IsBehind field (c ∷ s) r h b = rw (← append_assoc field (c ∷ []) s) (
      read-IsBehind (field ++ c ∷ []) s (read_char r c) (ground arith)
        (read_char-IsBehind field c r (ground arith) b))

  -- In quotes, doubled quotation marks join the field one by one.
  abbrev in_quotes : Text → Reader
  in_quotes field = record { mode = quoted; field = field; row = row; rows = rows }

  read-double_quotes :
      (field s : Text) → read (in_quotes field) (double_quotes s) ≡ in_quotes (field ++ s)
  unfolding read double_quotes read_char
  read-double_quotes field [] = rw (append-nil field)
  read-double_quotes field (c ∷ s) =
      ground (arith, read-double_quotes (field ++ c ∷ []) s, append_assoc field (c ∷ []) s)

  read_quoted :
      (s : Text)
      → read (at_start row rows) (b'"' ∷ (double_quotes s ++ b'"' ∷ []))
        ≡ record { mode = closing; field = s; row = row; rows = rows }
  unfolding read read_char
  read_quoted s =
      read-append (in_quotes []) (double_quotes s) (b'"' ∷ [])
      ∙ ap (λ (r : Reader). read r (b'"' ∷ [])) (read-double_quotes [] s)

  -- An escaped field is read back, whatever it holds.
  read-esc : (s : Text) → IsBehind s row rows (read (at_start row rows) (esc s))
  unfolding esc
  read-esc s = elim (Bool-cases (any needs_quotes s)) [
    | inl special ↦
        rw (special, read_quoted s)
          (record { outside_quotes = refl; field_eq = refl; row_eq = refl; rows_eq = refl })
    | inr bare ↦ rw bare (
        read-IsBehind [] s (at_start row rows) bare
          (record { outside_quotes = refl; field_eq = refl; row_eq = refl; rows_eq = refl }))
  ]

  -- A comma ends the field, and CR LF the line.
  read-comma :
      (field : Text) (r : Reader)
      → IsBehind field row rows r
      → read r (b',' ∷ []) ≡ at_start (row ++ field ∷ []) rows
  unfolding read read_char
  read-comma field r b = ground arith

  read-crlf :
      (field : Text) (r : Reader)
      → IsBehind field row rows r
      → read r crlf ≡ at_start [] (rows ++ (row ++ field ∷ []) ∷ [])
  unfolding read read_char
  read-crlf field r b = ground arith

  last_row-IsBehind :
      (field : Text) (r : Reader) → IsBehind field row rows r → last_row r ≡ row ++ field ∷ []
  last_row-IsBehind field r b = ground arith

-- A line of at least one field, read up to its end.
record IsAtEnd (fields : List Text) (rows : List (List Text)) (r : Reader) : Type 0 where
  line_eq : last_row r ≡ fields
  done_eq : r.rows ≡ rows
  next_line : read r crlf ≡ at_start [] (rows ++ fields ∷ [])

read_field-comma :
    (row : List Text) (rows : List (List Text)) (f rest : Text)
    → read (at_start row rows) (esc f ++ b',' ∷ rest) ≡ read (at_start (row ++ f ∷ []) rows) rest
read_field-comma row rows f rest =
    let r = read (at_start row rows) (esc f) in
    read-append (at_start row rows) (esc f) (b',' ∷ rest)
    ∙ read-append r (b',' ∷ []) rest
    ∙ ap (λ (q : Reader). read q rest) (read-comma row rows f r (read-esc row rows f))

read_fields :
    (row : List Text) (rows : List (List Text)) (f : Text) (fs : List Text)
    → IsAtEnd (row ++ f ∷ fs) rows (read (at_start row rows) (line (f ∷ fs)))
unfolding line join
read_fields row rows f [] =
    let b = read-esc row rows f in
    record {
      line_eq = last_row-IsBehind row rows f _ b;
      done_eq = b.rows_eq;
      next_line = read-crlf row rows f _ b;
    }
read_fields row rows f (g ∷ gs) =
    rw (read_field-comma row rows f (line (g ∷ gs)), ← append_assoc row (f ∷ []) (g ∷ gs))
      (read_fields (row ++ f ∷ []) rows g gs)

-- What the export's join of lines reads as, behind the lines `rows`.
abbrev lines : List (List Text) → Text
lines table = join crlf (map line table)

abbrev all_rows : Reader → List (List Text)
all_rows r = r.rows ++ last_row r ∷ []

read-line-crlf :
    (rows : List (List Text)) (f : Text) (fs : List Text) (rest : Text)
    → read (at_start [] rows) (line (f ∷ fs) ++ (crlf ++ rest))
      ≡ read (at_start [] (rows ++ (f ∷ fs) ∷ [])) rest
read-line-crlf rows f fs rest =
    let r = read (at_start [] rows) (line (f ∷ fs)) in
    read-append (at_start [] rows) (line (f ∷ fs)) (crlf ++ rest)
    ∙ read-append r crlf rest
    ∙ ap (λ (q : Reader). read q rest) (read_fields [] rows f fs).next_line

read-lines :
    (rows : List (List Text)) (l : List Text) (ls : List (List Text))
    → All (λ r. r ≢ []) (l ∷ ls)
    → all_rows (read (at_start [] rows) (lines (l ∷ ls))) ≡ rows ++ l ∷ ls
unfolding join
read-lines rows [] ls h = absurd (h.0 refl)
read-lines rows (f ∷ fs) [] h = let e = read_fields [] rows f fs in rw (e.line_eq, e.done_eq)
read-lines rows (f ∷ fs) (l ∷ ls) h =
    ap all_rows (read-line-crlf rows f fs (lines (l ∷ ls)))
    ∙ read-lines (rows ++ (f ∷ fs) ∷ []) l ls h.1
    ∙ append_assoc rows ((f ∷ fs) ∷ []) (l ∷ ls)

-- The headers need no quotes, and so are as the lines of the table.
headers-line : join (codes ",") headers ≡ line headers
unfolding line esc join
headers-line = refl

columns-ne-nil : (cs : List Container) → All (λ r. r ≢ []) (map columns cs)
unfolding columns
columns-ne-nil [] = tt
columns-ne-nil (c ∷ cs) = (λ e. cc, columns-ne-nil cs)

map-line-columns :
    (cs : List Container) → map (λ c. line (columns c)) cs ≡ map line (map columns cs)
map-line-columns [] = refl
map-line-columns (c ∷ cs) = ap (line (columns c) ∷◌) (map-line-columns cs)

-- Reading the exported file behind its first mark gives the headers and then the columns of every
-- container of the table, in order, whatever their names and tags hold: commas, quotation marks,
-- semicolons and line breaks never shift a column or a line.
pub read_csv-export_csv :
    (cs : List Container) → read_csv (drop 1 (export_csv cs)) ≡ headers ∷ map columns cs
unfolding read_csv export_csv
read_csv-export_csv cs =
    rw (headers-line, map-line-columns cs)
      (read-lines [] headers (map columns cs) ((λ e. cc), columns-ne-nil cs))
