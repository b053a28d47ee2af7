-- ===== src/Common/Perms.antt =====
-- What a permutation keeps.
use native.Mathlib.Nat.{ℕ_set}
use mathlib.Core.Logic.{∥∥₁_elim}
use mathlib.Core.List.{List, Perm, Permᴰ}
use mathlib.Core.Path.{◌≡◌, refl, ap}
use Prim.Native.Nat.{ℕ}
use native.Mathlib.Omega.{arith}
use safe_dock.Common.Lists.{total}

module _ {ℓ} {A : Type ℓ} (f : A → ℕ) where
  total-Permᴰ : {xs ys : List A} → Permᴰ xs ys → total f xs ≡ total f ys
  total-Permᴰ Permᴰ.nil = refl
  total-Permᴰ (Permᴰ.cons e d) = omega (arith, ap f e, total-Permᴰ d)
  total-Permᴰ (Permᴰ.swap e e') = omega (arith, ap f e, ap f e')
  total-Permᴰ (Permᴰ.trans d d') = omega (arith, total-Permᴰ d, total-Permᴰ d')

  pub total-perm : {xs ys : List A} → Perm xs ys → total f xs ≡ total f ys
  total-perm p = ∥∥₁_elim p (ℕ_set _ _) (λ d. total-Permᴰ d)
