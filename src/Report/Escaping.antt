-- ===== src/Report/Escaping.antt =====
-- The escaping of texts in the report, against the way a browser reads character references.
use safe_dock.Common.{
  ℕ, ◌≡◌, ◌≢◌, refl, ap, ◌∙◌, arith, [], ◌∷◌, ◌++◌, Bool, ◌||◌, Option, none, some, Text, codes,
  text_eq, ◌==◌, if◌then◌else◌, All, All-append,
}
use mathlib.Core.Option
use safe_dock.Report.{esc_unit, esc}

-- The named references that matter here; any other text between `&` and `;` stands for itself.
abbrev entity : Text → Text
entity name =
    if text_eq name (codes "amp")
    then b'&' ∷ []
    else (if text_eq name (codes "lt")
        then b'<' ∷ []
        else (if text_eq name (codes "gt")
            then b'>' ∷ []
            else (if text_eq name (codes "quot") then b'"' ∷ [] else b'&' ∷ (name ++ b';' ∷ []))))

-- A code unit that may not stand for itself in a cell: it opens or closes a tag, or an attribute.
abbrev is_markup : ℕ → Bool
is_markup c = c == b'<' || c == b'>' || c == b'"'

-- A browser's reading of a cell that is nothing but text: none if there is markup in it. The argument
-- is the name that is being read, after a `&`.
unfoldable pub read_html : Option Text → Text → Option Text
read_html none [] = some []
read_html (some name) [] = some (b'&' ∷ name)
read_html none (c ∷ s) =
    let reference = read_html (some []) s in
    let plain = Option.map (c ∷◌) (read_html none s) in
    if is_markup c then none else (if c == b'&' then reference else plain)
read_html (some name) (c ∷ s) =
    let closed = Option.map (entity name ++◌) (read_html none s) in
    let open_ = read_html (some (name ++ c ∷ [])) s in
    if is_markup c then none else (if c == b';' then closed else open_)

-- A code unit that neither opens nor closes a tag or an attribute.
abbrev pub IsInert : ℕ → Type 0
IsInert c = (c ≢ b'<') × (c ≢ b'>') × (c ≢ b'"')

esc_unit-IsInert : (c : ℕ) → All IsInert (esc_unit c)
unfolding esc_unit
esc_unit-IsInert c = ground arith

-- No text can break out of its cell: what `esc` gives holds no tag and no quotation mark.
pub esc-IsInert : (s : Text) → All IsInert (esc s)
unfolding esc
esc-IsInert [] = tt
esc-IsInert (c ∷ s) = All-append IsInert (esc_unit c) (esc s) (esc_unit-IsInert c) (esc-IsInert s)

module _ (s : Text) where
  read_amp : read_html none (codes "&amp;" ++ s) ≡ Option.map (b'&' ∷◌) (read_html none s)
  unfolding read_html text_eq
  read_amp = refl

  read_lt : read_html none (codes "&lt;" ++ s) ≡ Option.map (b'<' ∷◌) (read_html none s)
  unfolding read_html text_eq
  read_lt = refl

  read_gt : read_html none (codes "&gt;" ++ s) ≡ Option.map (b'>' ∷◌) (read_html none s)
  unfolding read_html text_eq
  read_gt = refl

  read_quot : read_html none (codes "&quot;" ++ s) ≡ Option.map (b'"' ∷◌) (read_html none s)
  unfolding read_html text_eq
  read_quot = refl

  read_plain :
      (c : ℕ) → c ≢ b'&' → IsInert c → read_html none (c ∷ s) ≡ Option.map (c ∷◌) (read_html none s)
  unfolding read_html
  read_plain c h i = ground arith

read_html-esc_unit :
    (c : ℕ) (s : Text) → read_html none (esc_unit c ++ s) ≡ Option.map (c ∷◌) (read_html none s)
unfolding esc_unit
read_html-esc_unit c s =
    ground (arith, read_plain s c, read_amp s, read_lt s, read_gt s, read_quot s)

read_nil : read_html none [] ≡ some []
unfolding read_html
read_nil = refl

-- An escaped text holds no markup, and a browser reads it, with the references to `&`, `<`, `>` and the
-- quotation mark, as exactly the text.
pub read_html-esc : (s : Text) → read_html none (esc s) ≡ some s
unfolding esc
read_html-esc [] = read_nil
read_html-esc (c ∷ s) = read_html-esc_unit c (esc s) ∙ ap (Option.map (c ∷◌)) (read_html-esc s)
