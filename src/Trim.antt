-- ===== src/Trim.antt =====
-- `trim` and `parseInt`, as the forms of internal/web/frontend/src/components apply them to their
-- fields.
use safe_dock.Common.{
  ◌≡◌, refl, arith, ◌∙◌, ap, [], ◌∷◌, Option, some, ◌&&◌, Text, is_empty, if◌then◌else◌, All,
}
use safe_dock.Common.Decimal.{decimal, IsDigit, decimal-IsDigit}
use safe_dock.Common.Int.{ℤ, pos, negsuc, print_int, parse_digits, parse-print}
use safe_dock.PasswordPolicy.{is_space}

unfoldable pub trim_left : Text → Text
trim_left [] = []
trim_left (c ∷ s) = if is_space c then trim_left s else c ∷ s

unfoldable pub trim_right : Text → Text
trim_right [] = []
trim_right (c ∷ s) = let rest = trim_right s in if is_space c && is_empty rest then [] else c ∷ rest

-- `s.trim()`
unfoldable pub trim : Text → Text
unfolding trim_left trim_right
trim s = trim_right (trim_left s)

-- `parseInt(s, 10)`; `none` is NaN.
unfoldable pub parse_int : Text → Option ℤ
unfolding trim_left
parse_int s = parse_digits (trim_left s)

trim_left-digits : (s : Text) → All IsDigit s → trim_left s ≡ s
unfolding trim_left is_space
trim_left-digits [] h = refl
trim_left-digits (c ∷ s) h = ground arith

trim_left-print_int : (n : ℤ) → trim_left (print_int n) ≡ print_int n
unfolding print_int trim_left is_space
trim_left-print_int (pos n) = trim_left-digits (decimal n) (decimal-IsDigit n)
trim_left-print_int (negsuc n) = refl

-- A number that is put into a field is read back from it.
pub parse_int-print_int : (n : ℤ) → parse_int (print_int n) ≡ some n
unfolding parse_int
parse_int-print_int n = ap parse_digits (trim_left-print_int n) ∙ parse-print n
