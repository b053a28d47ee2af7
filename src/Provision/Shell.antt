-- ===== src/Provision/Shell.antt =====
-- How a shell reads a script: lines, words, comments and the three kinds of quoting. Operators and
-- expansions stay as they are written. The character that quotes the next one is `\` in a POSIX shell
-- and a backtick in PowerShell.
use safe_dock.Common.{
  ◌≡◌, refl, ap, ◌∙◌, arith, ℕ, List, [], ◌∷◌, ◌++◌, Bool, true, false, not, ◌||◌, Text, ◌==◌,
  if◌then◌else◌, All, append_assoc, append-nil,
}

if_off {ℓ} : {A : Type ℓ} (b : Bool) (x y : A) → b ≡ false → (if b then x else y) ≡ y
if_off true x y h = cc
if_off false x y h = refl

pub data Mode : Type 0 where
  between inside comment single double escaped double_escaped : Mode

pub record Reader : Type 0 where
  pub mode : Mode
  pub word : Text
  pub words : List Text
  -- The commands of the lines that are over.
  pub commands : List (List Text)

abbrev pub fresh : List (List Text) → Reader
fresh commands = record { mode = between; word = []; words = []; commands = commands }

abbrev push : ℕ → Mode → Reader → Reader
push c m r = record r { mode = m; word = r.word ++ c ∷ [] }

abbrev end_word : Reader → Reader
end_word r = record r { mode = between; word = []; words = r.words ++ r.word ∷ [] }

abbrev end_line : List Text → Reader → Reader
end_line [] r = fresh r.commands
end_line (w ∷ ws) r = fresh (r.commands ++ (w ∷ ws) ∷ [])

module _ (quoting : ℕ) where
  abbrev begin : Mode → ℕ → Reader → Reader
  begin m c r =
      if c == b'\''
      then record r { mode = single }
      else (if c == b'"'
          then record r { mode = double }
          else (if c == quoting then record r { mode = escaped } else push c inside r))

  unfoldable pub step_in : Mode → ℕ → Reader → Reader
  step_in between c r =
      if c == b'\n'
      then end_line r.words r
      else (if c == b' ' || c == b'\t'
          then r
          else (if c == b'#' then record r { mode = comment } else begin between c r))
  step_in inside c r =
      if c == b'\n'
      then end_line (r.words ++ r.word ∷ []) r
      else (if c == b' ' || c == b'\t' then end_word r else begin inside c r)
  step_in comment c r = if c == b'\n' then end_line r.words r else r
  step_in single c r = if c == b'\'' then record r { mode = inside } else push c single r
  step_in double c r =
      if c == b'"'
      then record r { mode = inside }
      else (if c == quoting then record r { mode = double_escaped } else push c double r)
  step_in escaped c r = if c == b'\n' then record r { mode = inside } else push c inside r
  step_in double_escaped c r = push c double r

  unfoldable pub read : Reader → Text → Reader
  unfolding step_in
  read r [] = r
  read r (c ∷ s) = read (step_in r.mode c r) s

  pub read-append : (r : Reader) (s t : Text) → read r (s ++ t) ≡ read (read r s) t
  unfolding read
  read-append r [] t = refl
  read-append r (c ∷ s) t = read-append (step_in r.mode c r) s t

  -- A comment goes to the end of its line, whatever it holds.
  pub read_comment :
      (cs : List (List Text)) (s t : Text)
      → All (λ c. not (c == b'\n') ≡ true) s
      → read (record (fresh cs) { mode = comment }) (s ++ (b'\n' ∷ t)) ≡ read (fresh cs) t
  unfolding read
  read_comment cs [] t h = refl
  read_comment cs (c ∷ s) t h =
      ap (λ r. read r (s ++ (b'\n' ∷ t))) (if_off (c == b'\n') _ _ (ground arith))
      ∙ read_comment cs s t h.1

  -- What stands between simple quotation marks is taken as it is.
  pub read_literal :
      (w : Text) (ws : List Text) (cs : List (List Text)) (s t : Text)
      → All (λ c. not (c == b'\'') ≡ true) s
      → read (record { mode = single; word = w; words = ws; commands = cs }) (s ++ t)
        ≡ read (record { mode = single; word = w ++ s; words = ws; commands = cs }) t
  unfolding read
  read_literal w ws cs [] t h = rw append-nil refl
  read_literal w ws cs (c ∷ s) t h =
      ap (λ r. read r (s ++ t)) (if_off (c == b'\'') _ _ (ground arith))
      ∙ (read_literal (w ++ c ∷ []) ws cs s t h.1
          ∙ ap (λ v. read (record { mode = single; word = v; words = ws; commands = cs }) t)
              (append_assoc w (c ∷ []) s))

  -- A line that ends with such a value.
  pub quoted_line :
      (w : Text) (ws : List Text) (cs : List (List Text)) (s t : Text)
      → All (λ c. not (c == b'\'') ≡ true) s
      → read
          (record { mode = single; word = w; words = ws; commands = cs })
          ((s ++ b'\'' ∷ []) ++ (b'\n' ∷ t))
        ≡ read (record { mode = inside; word = w ++ s; words = ws; commands = cs }) (b'\n' ∷ t)
  unfolding read
  quoted_line w ws cs s t h =
      ap (read (record { mode = single; word = w; words = ws; commands = cs }))
        (append_assoc s (b'\'' ∷ []) (b'\n' ∷ t))
      ∙ read_literal w ws cs s (b'\'' ∷ b'\n' ∷ t) h
