-- ===== src/PasswordPolicy/Laws.antt =====
-- What the client's password check promises.
use safe_dock.Common.{
  ℕ, ◌≤◌, List, [], ◌∷◌, ◌++◌, Bool, true, false, ◌&&◌, some, ◌≡◌, ◌↔◌, refl, arith, Text, any, All,
}
use safe_dock.PasswordPolicy.{
  is_upper, is_lower, is_digit, is_special, is_high, is_low, code_points, Checks, rows,
  password_rules, check_password, password_checklist, Item,
}

any-append_left {ℓ} :
    {A : Type ℓ} (p : A → Bool) (s t : List A) → any p s ≡ true → any p (s ++ t) ≡ true
any-append_left p [] t h = cc
any-append_left p (c ∷ s) t h = ground (arith, any-append_left p s t)

any-append_right {ℓ} :
    {A : Type ℓ} (p : A → Bool) (s t : List A) → any p t ≡ true → any p (s ++ t) ≡ true
any-append_right p [] t h = h
any-append_right p (c ∷ s) t h = ground (arith, any-append_right p s t h)

low-ne-high : (c : ℕ) → is_low c ≡ true → is_high c ≡ false
unfolding is_low is_high
low-ne-high c h = ground arith

-- A character in front never lowers the count, and raises it by one at most.
code_points-cons : (c : ℕ) (s : Text) → code_points s ≤ code_points (c ∷ s)
unfolding code_points
code_points-cons c [] = omega arith
code_points-cons c (a ∷ []) = ground arith
code_points-cons c (a ∷ b ∷ s) = ground (arith, low-ne-high a)

code_points_pos : (c : ℕ) (s : Text) → 1 ≤ code_points (c ∷ s)
unfolding code_points
code_points_pos c [] = omega arith
code_points_pos c (a ∷ s) = ground arith

code_points-append_left : (s t : Text) → code_points s ≤ code_points (s ++ t)
unfolding code_points
code_points-append_left [] t = omega arith
code_points-append_left (a ∷ []) t = code_points_pos a t
code_points-append_left (a ∷ b ∷ s) t =
    ground (arith, code_points-append_left s t, code_points-append_left (b ∷ s) t)

code_points-append_right : (s t : Text) → code_points t ≤ code_points (s ++ t)
code_points-append_right [] t = omega arith
code_points-append_right (a ∷ s) t =
    omega (arith, code_points-append_right s t, code_points-cons a (s ++ t))

-- Typing more characters before or behind an accepted password keeps it accepted: no rule can be
-- broken again by adding text, not even where surrogates meet at the seams.
check_password-extend :
    (before pw after : Text)
    → (check_password (some pw)).ok ≡ true
    → (check_password (some (before ++ (pw ++ after)))).ok ≡ true
unfolding check_password
check_password-extend before pw after h = ground (
  arith,
  code_points-append_left pw after,
  code_points-append_right before (pw ++ after),
  any-append_left is_upper pw after,
  any-append_right is_upper before (pw ++ after),
  any-append_left is_lower pw after,
  any-append_right is_lower before (pw ++ after),
  any-append_left is_digit pw after,
  any-append_right is_digit before (pw ++ after),
  any-append_left is_special pw after,
  any-append_right is_special before (pw ++ after),
)

-- The verdict is the conjunction of the five rules.
abbrev Agrees : Checks → Type 0
Agrees c = c.ok ≡ (c.length && c.upper && c.lower && c.digit && c.special)

rows-ticked_iff :
    (c : Checks) → Agrees c → All (λ i. i.ticked ≡ true) (rows c password_rules) ↔ (c.ok ≡ true)
unfolding rows
rows-ticked_iff c h = ground arith

check_password-Agrees : (s : Text) → Agrees (check_password (some s))
unfolding check_password
check_password-Agrees s = refl

-- The list under the field has a cross on some line exactly as long as the password is refused;
-- it is hidden only for the empty password, which is refused.
password_checklist-ticked_iff :
    (c : ℕ) (s : Text)
    → (items : List Item) × (password_checklist (c ∷ s) ≡ some items)
      × (All (λ i. i.ticked ≡ true) items ↔ ((check_password (some (c ∷ s))).ok ≡ true))
unfolding password_checklist
password_checklist-ticked_iff c s =
    (_, refl, rows-ticked_iff (check_password (some (c ∷ s))) (check_password-Agrees (c ∷ s)))
