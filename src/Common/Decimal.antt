-- ===== src/Common/Decimal.antt =====
-- `String(n)` for a whole number: its decimal digits.
use native.Mathlib.Omega.{arith}
use Prim.Native.Nat.{ℕ, zero, suc, ◌+◌, ◌-◌, ◌*◌, ◌/◌, ◌%◌, ◌≤◌, ◌<◌}
use mathlib.Core.Path.{◌≡◌, refl, ap}
use mathlib.Core.Bool.{false}
use mathlib.Core.List.{[], ◌∷◌}
use safe_dock.Common.Tests.{ltb, if◌then◌else◌}
use safe_dock.Common.Lists.{All}
use safe_dock.Common.Texts.{Text, is_empty}

digits_from : ℕ → ℕ → Text → Text
digits_from zero n acc = acc
digits_from (suc fuel) n acc =
    let more = digits_from fuel (n / 10) ((48 + n % 10) ∷ acc) in
    if ltb n 10 then (48 + n) ∷ acc else more

-- Each round divides by ten, so that `n + 1` rounds are enough.
unfoldable pub decimal : ℕ → Text
unfolding digits_from
decimal n = digits_from (suc n) n []

abbrev pub IsDigit : ℕ → Type 0
IsDigit c = (48 ≤ c) × (c ≤ 57)

digits_from-IsDigit :
    (fuel n : ℕ) (acc : Text) → All IsDigit acc → All IsDigit (digits_from fuel n acc)
unfolding digits_from
digits_from-IsDigit zero n acc h = h
digits_from-IsDigit (suc fuel) n acc h =
    ground (arith, digits_from-IsDigit fuel (n / 10) ((48 + n % 10) ∷ acc))

pub decimal-IsDigit : (n : ℕ) → All IsDigit (decimal n)
unfolding decimal
decimal-IsDigit n = digits_from-IsDigit (suc n) n [] tt

-- The number that digits stand for, behind a part that is read already.
abbrev pub value : ℕ → Text → ℕ
value v [] = v
value v (c ∷ s) = value (v * 10 + (c - 48)) s

value-digits_from :
    (fuel n : ℕ) (acc : Text) → n < fuel → value 0 (digits_from fuel n acc) ≡ value n acc
unfolding digits_from
value-digits_from zero n acc h = absurd (omega arith)
value-digits_from (suc fuel) n acc h = ground (
  arith,
  value-digits_from fuel (n / 10) ((48 + n % 10) ∷ acc),
  ap (λ (m : ℕ). value m acc) (put_together n),
  ap (λ (m : ℕ). value m acc) (one_digit n),
)
  where
    put_together : (m : ℕ) → m / 10 * 10 + (48 + m % 10 - 48) ≡ m
    put_together m = omega arith

    one_digit : (m : ℕ) → 0 * 10 + (48 + m - 48) ≡ m
    one_digit m = omega arith

-- The fuel is enough: the digits stand for the number.
pub value-decimal : (n : ℕ) → value 0 (decimal n) ≡ n
unfolding decimal
value-decimal n = value-digits_from (suc n) n [] (omega arith)

digits_from-filled : (fuel n c : ℕ) (acc : Text) → is_empty (digits_from fuel n (c ∷ acc)) ≡ false
unfolding digits_from
digits_from-filled zero n c acc = refl
digits_from-filled (suc fuel) n c acc =
    ground (arith, digits_from-filled fuel (n / 10) (48 + n % 10) (c ∷ acc))

pub decimal-filled : (n : ℕ) → is_empty (decimal n) ≡ false
unfolding decimal digits_from
decimal-filled n = ground (arith, digits_from-filled n (n / 10) (48 + n % 10) [])
