-- ===== src/Limiter/Entries.antt =====
-- One entry of the limiter through the operations on the whole of it: internal/auth/limiter.go.
use safe_dock.Common.{
  ◌≡◌, refl, sym, ap, arith, ℕ, [], ◌∷◌, true, false, Option, none, some, Text, text_eq,
  text_eq_refl, text_eq_iff, ltb, if◌then◌else◌, length, Bool-cases, ◌⊎◌, inl, inr,
}
use safe_dock.Limiter.{
  Attempts, Limiter, lookup, put, reset, is_expired, purge, purge_if_large, failed, fail,
}

text_eq_of : (k j l : Text) → text_eq j l ≡ true → text_eq k l ≡ text_eq k j
text_eq_of k j l h = ap (text_eq k) (sym ((text_eq_iff j l).0 h))

lookup-put : (k : Text) (s : Attempts) (m : Limiter) → lookup k (put k s m) ≡ some s
unfolding lookup put
lookup-put k s [] = ground (arith, text_eq_refl k)
lookup-put k s ((k', s') ∷ m) = elim (Bool-cases (text_eq k k')) [
  | inl same ↦ ground arith
  | inr differ ↦ ground (arith, lookup-put k s m)
]

lookup-put_other :
    (k j : Text) (s : Attempts) (m : Limiter)
    → text_eq k j ≡ false
    → lookup k (put j s m) ≡ lookup k m
unfolding lookup put
lookup-put_other k j s [] h = ground arith
lookup-put_other k j s ((k', s') ∷ m) h = elim (Bool-cases (text_eq j k')) [
  | inl same ↦ ground (arith, text_eq_of k j k' same)
  | inr differ ↦ ground (arith, lookup-put_other k j s m h)
]

lookup-reset : (k : Text) (m : Limiter) → lookup k (reset k m) ≡ none
unfolding lookup reset
lookup-reset k [] = refl
lookup-reset k ((k', s) ∷ m) = ground (arith, lookup-reset k m)

pub lookup-reset_other :
    (k j : Text) (m : Limiter) → text_eq k j ≡ false → lookup k (reset j m) ≡ lookup k m
unfolding lookup reset
lookup-reset_other k j [] h = refl
lookup-reset_other k j ((k', s) ∷ m) h = elim (Bool-cases (text_eq j k')) [
  | inl same ↦ ground (arith, text_eq_of k j k' same, lookup-reset_other k j m h)
  | inr differ ↦ ground (arith, lookup-reset_other k j m h)
]

unfoldable pub surviving : (now : ℕ) → Option Attempts → Option Attempts
unfolding is_expired
surviving now none = none
surviving now (some s) = if is_expired now s then none else some s

purge-over :
    (now : ℕ) (k k' : Text) (s : Attempts) (m : Limiter)
    → lookup k (purge now m) ≡ surviving now (lookup k m)
    → is_expired now s ≡ true
    → lookup k (purge now ((k', s) ∷ m)) ≡ surviving now (lookup k ((k', s) ∷ m))
unfolding lookup purge surviving
purge-over now k k' s m h over = elim (Bool-cases (text_eq k k')) [
  | inl same ↦ ground (arith, (text_eq_iff k k').0 same, lookup-reset k (purge now m))
  | inr differ ↦ ground (arith, lookup-reset_other k k' (purge now m) differ)
]

lookup-purge :
    (now : ℕ) (k : Text) (m : Limiter) → lookup k (purge now m) ≡ surviving now (lookup k m)
unfolding lookup purge surviving
lookup-purge now k [] = refl
lookup-purge now k ((k', s) ∷ m) = elim (Bool-cases (is_expired now s)) [
  | inl over ↦ purge-over now k k' s m (lookup-purge now k m) over
  | inr kept ↦ ground (arith, lookup-purge now k m)
]

-- What the purge of a large limiter makes of one entry.
pub purged-cases :
    (now : ℕ) (k : Text) (m : Limiter)
    → (lookup k (purge_if_large now m) ≡ lookup k m)
      ⊎ (lookup k (purge_if_large now m) ≡ surviving now (lookup k m))
unfolding purge_if_large
purged-cases now k m = elim (Bool-cases (ltb 4096 (length m))) [
  | inl large ↦ inr (rw large (lookup-purge now k m))
  | inr small ↦ inl (rw small refl)
]

pub lookup-fail :
    (k : Text) (max now : ℕ) (m : Limiter)
    → lookup k (fail k max now m).0 ≡ some (failed max now (lookup k (purge_if_large now m))).0
unfolding fail
lookup-fail k max now m = lookup-put k _ (purge_if_large now m)

pub lookup-fail_other :
    (k j : Text) (max now : ℕ) (m : Limiter)
    → text_eq k j ≡ false
    → lookup k (fail j max now m).0 ≡ lookup k (purge_if_large now m)
unfolding fail
lookup-fail_other k j max now m h = lookup-put_other k j _ (purge_if_large now m) h
