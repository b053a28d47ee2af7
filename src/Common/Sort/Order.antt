-- ===== src/Common/Sort/Order.antt =====
-- The order of a sorted array, for a comparator that is a total preorder.
use Prim.Native.Nat.{ℕ}
use mathlib.Core.Path.{◌≡◌, refl}
use mathlib.Core.Bool.{Bool, true, false}
use mathlib.Core.Logic.{inl, inr}
use mathlib.Core.List.{List, [], ◌∷◌}
use native.Mathlib.Omega.{arith}
use safe_dock.Common.Tests.{Bool-cases}
use safe_dock.Common.Lists.{All, keep, take, drop, length}
use Prim.Native.Nat.{zero, suc}
use safe_dock.Common.Sort.{insert, sort_by, IsSorted}

module _ {ℓ} {A : Type ℓ} (gt : A → A → Bool) where
  All-insert {κ} : (P : A → Type κ) (x : A) (ys : List A) → P x → All P ys → All P (insert gt x ys)
  unfolding insert
  All-insert P x [] p h = (p, tt)
  All-insert P x (y ∷ ys) p h = elim (Bool-cases (gt x y)) [
    | inl later ↦ rw later (h.0, All-insert P x ys p h.1)
    | inr here ↦ rw here (p, h)
  ]

  -- Sorting keeps what holds of every element.
  pub All-sort_by {κ} : (P : A → Type κ) (xs : List A) → All P xs → All P (sort_by gt xs)
  unfolding sort_by
  All-sort_by P [] h = tt
  All-sort_by P (x ∷ xs) h = All-insert P x (sort_by gt xs) h.0 (All-sort_by P xs h.1)

  length-insert : (x : A) (ys : List A) → length (insert gt x ys) ≡ suc (length ys)
  unfolding insert
  length-insert x [] = refl
  length-insert x (y ∷ ys) = ground (arith, length-insert x ys)

  pub length-sort_by : (xs : List A) → length (sort_by gt xs) ≡ length xs
  unfolding sort_by
  length-sort_by [] = refl
  length-sort_by (x ∷ xs) = omega (arith, length-insert x (sort_by gt xs), length-sort_by xs)

  -- Elements that are not told apart keep their order.
  module _ (p : A → Bool) (alike : (x y : A) → p x ≡ true → p y ≡ true → gt x y ≡ false) where
    keep-insert : (x : A) (ys : List A) → keep p (insert gt x ys) ≡ keep p (x ∷ ys)
    unfolding insert
    keep-insert x [] = refl
    keep-insert x (y ∷ ys) = ground (arith, keep-insert x ys, alike x y)

    pub keep-sort_by : (xs : List A) → keep p (sort_by gt xs) ≡ keep p xs
    unfolding sort_by
    keep-sort_by [] = refl
    keep-sort_by (x ∷ xs) = ground (arith, keep-insert x (sort_by gt xs), keep-sort_by xs)

  module _ (asym : (x y : A) → gt x y ≡ true → gt y x ≡ false)
      (trans : (x y z : A) → gt x y ≡ false → gt y z ≡ false → gt x z ≡ false) where
    All-trans :
        (x y : A) (zs : List A)
        → gt x y ≡ false
        → All (λ z. gt y z ≡ false) zs
        → All (λ z. gt x z ≡ false) zs
    All-trans x y [] e h = tt
    All-trans x y (z ∷ zs) e h = (trans x y z e h.0, All-trans x y zs e h.1)

    insert-IsSorted : (x : A) (ys : List A) → IsSorted gt ys → IsSorted gt (insert gt x ys)
    unfolding insert
    insert-IsSorted x [] h = (tt, tt)
    insert-IsSorted x (y ∷ ys) h = elim (Bool-cases (gt x y)) [
      | inl later ↦
          rw later
            (All-insert (λ z. gt y z ≡ false) x ys (asym x y later) h.0, insert-IsSorted x ys h.1)
      | inr here ↦ rw here ((here, All-trans x y ys here h.0), h)
    ]

    pub sort_by-IsSorted : (xs : List A) → IsSorted gt (sort_by gt xs)
    unfolding sort_by
    sort_by-IsSorted [] = tt
    sort_by-IsSorted (x ∷ xs) = insert-IsSorted x (sort_by gt xs) (sort_by-IsSorted xs)

  -- What is cut off at the front of a sorted list is not to be put behind what is left.
  All-drop {κ} : (P : A → Type κ) (n : ℕ) (xs : List A) → All P xs → All P (drop n xs)
  All-drop P zero xs h = h
  All-drop P (suc n) [] h = tt
  All-drop P (suc n) (x ∷ xs) h = All-drop P n xs h.1

  pub take-IsSorted :
      (n : ℕ) (xs : List A)
      → IsSorted gt xs
      → All (λ x. All (λ y. gt x y ≡ false) (drop n xs)) (take n xs)
  take-IsSorted zero xs h = tt
  take-IsSorted (suc n) [] h = tt
  take-IsSorted (suc n) (x ∷ xs) h =
      (All-drop (λ y. gt x y ≡ false) n xs h.0, take-IsSorted n xs h.1)
