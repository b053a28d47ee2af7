-- ===== src/Common/Flight.antt =====
-- The requests on their way, in the order in which they were sent, whose answers come in any order.
use safe_dock.Common.{◌≡◌, refl, ap, ℕ, zero, suc, List, [], ◌∷◌, ◌++◌, Option, none, some, length}

-- Takes the one with a number out.
unfoldable pub pick {ℓ} : {A : Type ℓ} → ℕ → List A → Option A × List A
pick n [] = (none, [])
pick zero (x ∷ xs) = (some x, xs)
pick (suc n) (x ∷ xs) = let (found, rest) = pick n xs in (found, x ∷ rest)

abbrev pub HasAt {ℓ} : {A : Type ℓ} → ℕ → A → List A → Type ℓ
HasAt n x xs = (pick n xs).0 ≡ some x

-- A request stays in its place while others follow it.
pub pick-append {ℓ} :
    {A : Type ℓ} → (n : ℕ) (x : A) (xs ys : List A) → HasAt n x xs → HasAt n x (xs ++ ys)
unfolding pick
pick-append n x [] ys h = cc
pick-append zero x (y ∷ xs) ys h = h
pick-append (suc n) x (y ∷ xs) ys h = pick-append n x xs ys h

pub pick-last {ℓ} :
    {A : Type ℓ} → (x : A) (xs : List A) → pick (length xs) (xs ++ x ∷ []) ≡ (some x, xs)
unfolding pick
pick-last x [] = refl
pick-last x (y ∷ xs) = ap (λ found. (found.0, y ∷ found.1)) (pick-last x xs)

-- An answer to none of them leaves them all on their way.
pub pick-none {ℓ} : {A : Type ℓ} → (n : ℕ) (xs : List A) → (pick n xs).0 ≡ none → (pick n xs).1 ≡ xs
unfolding pick
pick-none n [] h = refl
pick-none zero (x ∷ xs) h = cc
pick-none (suc n) (x ∷ xs) h = ap (x ∷◌) (pick-none n xs h)
