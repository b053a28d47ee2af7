-- ===== src/Common/Int.antt =====
-- Signed whole numbers, as `String` prints and `parseInt(s, 10)` reads them. Numbers are exact here:
-- the doubles of the program are so below 2 ^ 53.
use Prim.Native.Nat.{ℕ, suc, ◌-◌}
use mathlib.Core.Path.{◌≡◌, refl, ap, ◌∙◌}
use mathlib.Core.Bool.{Bool, true, false, ◌&&◌}
use mathlib.Core.Option.{Option, none, some}
use mathlib.Core.List.{[], ◌∷◌}
use native.Mathlib.Omega.{arith}
use safe_dock.Common.Tests.{leb, ◌==◌, if◌then◌else◌}
use safe_dock.Common.Lists.{All}
use safe_dock.Common.Texts.{Text, is_empty}
use safe_dock.Common.Decimal.{
  decimal, value, IsDigit, decimal-IsDigit, value-decimal, decimal-filled,
}

-- `negsuc n` is -(n + 1).
pub data ℤ : Type 0 where
  pos : ℕ → ℤ
  negsuc : ℕ → ℤ

-- `String(n)`
unfoldable pub print_int : ℤ → Text
print_int (pos n) = decimal n
print_int (negsuc n) = b'-' ∷ decimal (suc n)

-- The digits at the head of a text.
unfoldable pub digits : Text → Text
digits [] = []
digits (c ∷ s) = if leb 48 c && leb c 57 then c ∷ digits s else []

unfoldable pub signed : Bool → Text → Option ℤ
signed minus [] = none
signed false (c ∷ s) = some (pos (value 0 (c ∷ s)))
signed true (c ∷ s) = some (if value 0 (c ∷ s) == 0 then pos 0 else negsuc (value 0 (c ∷ s) - 1))

-- `parseInt(s, 10)` behind the white space; `none` is NaN.
unfoldable pub parse_digits : Text → Option ℤ
unfolding digits signed
parse_digits [] = none
parse_digits (c ∷ s) =
    if c == b'-'
    then signed true (digits s)
    else (if c == b'+' then signed false (digits s) else signed false (digits (c ∷ s)))

digits_kept : (s : Text) → All IsDigit s → digits s ≡ s
unfolding digits
digits_kept [] h = refl
digits_kept (c ∷ s) h = ground (arith, digits_kept s h.1)

signed-digits :
    (minus : Bool) (s : Text)
    → is_empty s ≡ false
    → signed minus s ≡ (
        if minus
        then some (if value 0 s == 0 then pos 0 else negsuc (value 0 s - 1))
        else some (pos (value 0 s)))
unfolding signed
signed-digits minus [] h = cc
signed-digits false (c ∷ s) h = refl
signed-digits true (c ∷ s) h = ground arith

parse-digits :
    (s : Text) → All IsDigit s → is_empty s ≡ false → parse_digits s ≡ some (pos (value 0 s))
unfolding parse_digits
parse-digits [] all h = cc
parse-digits (c ∷ s) all h =
    ground (arith, digits_kept (c ∷ s) all, signed-digits false (c ∷ s) refl)

parse-negative : (n : ℕ) → parse_digits (b'-' ∷ decimal (suc n)) ≡ some (negsuc n)
unfolding parse_digits
parse-negative n = ground (
  arith,
  digits_kept (decimal (suc n)) (decimal-IsDigit (suc n)),
  signed-digits true (decimal (suc n)) (decimal-filled (suc n)),
  value-decimal (suc n),
)

-- What `String` prints of a whole number, `parseInt` reads.
pub parse-print : (n : ℤ) → parse_digits (print_int n) ≡ some n
unfolding print_int
parse-print (pos n) =
    parse-digits (decimal n) (decimal-IsDigit n) (decimal-filled n)
    ∙ ap (λ (m : ℕ). some (pos m)) (value-decimal n)
parse-print (negsuc n) = parse-negative n

pub print_int-filled : (n : ℤ) → is_empty (print_int n) ≡ false
unfolding print_int
print_int-filled (pos n) = decimal-filled n
print_int-filled (negsuc n) = refl
