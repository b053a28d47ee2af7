-- ===== src/Visible/Saved.antt =====
-- The scope that the editor of UsersView.jsx saves against what the server shows behind it.
use safe_dock.Common.{
  ◌≡◌, refl, sym, ap, arith, ℕ, List, [], ◌∷◌, ◌++◌, Bool, false, not, ◌&&◌, ◌||◌, ◌==◌, any,
  Bool-cases, inl, inr,
}
use safe_dock.Scope.{Scope, has, set_from}
use safe_dock.Scope.Toggles.{has-set_from}
use safe_dock.Visible.{User, holds, is_unrestricted, host_ok, tag_ok, can_see, handle_scope}

-- What a scope means: everything, or a container on one of its hosts and with one of its tags, where an empty
-- list is no restriction unless both are empty.
abbrev pub allows : Scope → (host_id : ℕ) (ids : List ℕ) → Bool
allows sc h ids =
    sc.scope_all
    || (not (is_unrestricted sc.hosts && is_unrestricted sc.tags)
        && ((is_unrestricted sc.hosts || has h sc.hosts)
            && (is_unrestricted sc.tags || any (λ i. has i sc.tags) ids)))

any-ext : (p q : ℕ → Bool) → ((i : ℕ) → p i ≡ q i) → (is : List ℕ) → any p is ≡ any q is
any-ext p q e [] = refl
any-ext p q e (i ∷ is) = ground (arith, e i, any-ext p q e is)

any-none : (ids : List ℕ) → any (λ i. has i []) ids ≡ false
any-none [] = refl
any-none (i ∷ ids) = any-none ids

any-or : (p q : ℕ → Bool) (ids : List ℕ) → any (λ i. p i || q i) ids ≡ (any p ids || any q ids)
any-or p q [] = refl
any-or p q (i ∷ ids) = ground (arith, any-or p q ids)

has_first : (i t : ℕ) (ts : List ℕ) → has i (t ∷ ts) ≡ (i == t || has i ts)
has_first i t ts = ground arith

-- A tag of the scope is one of the container's exactly if a tag of the container is one of the scope's.
any-swap : (ids ts : List ℕ) → any (holds ids) ts ≡ any (λ i. has i ts) ids
any-swap ids [] = sym (any-none ids)
any-swap ids (t ∷ ts) = ground (
  arith,
  any-swap ids ts,
  any-or (λ i. i == t) (λ i. has i ts) ids,
  any-ext (λ i. has i (t ∷ ts)) (λ i. i == t || has i ts) (λ i. has_first i t ts) ids,
)

is_unrestricted-set_from :
    (i : ℕ) (set is : List ℕ) → is_unrestricted (set_from (i ∷ set) is) ≡ false
unfolding set_from
is_unrestricted-set_from i set [] = refl
is_unrestricted-set_from i set (j ∷ js) = elim (Bool-cases (has j (i ∷ set))) [
  | inl there ↦ rw there (is_unrestricted-set_from i set js)
  | inr new ↦ rw new (is_unrestricted-set_from i (set ++ j ∷ []) js)
]

saved-is_unrestricted : (is : List ℕ) → is_unrestricted (set_from [] is) ≡ is_unrestricted is
unfolding set_from
saved-is_unrestricted [] = refl
saved-is_unrestricted (i ∷ is) = is_unrestricted-set_from i [] is

host_ok_lem : (gs : List ℕ) (h : ℕ) → host_ok gs h ≡ (is_unrestricted gs || has h gs)
unfolding host_ok
host_ok_lem [] h = refl
host_ok_lem (g ∷ gs) h = refl

tag_ok_lem : (ts ids : List ℕ) → tag_ok ts ids ≡ (is_unrestricted ts || any (λ i. has i ts) ids)
unfolding tag_ok
tag_ok_lem [] ids = refl
tag_ok_lem (t ∷ ts) ids = any-swap ids (t ∷ ts)

saved-host_ok :
    (gs : List ℕ) (h : ℕ) → host_ok (set_from [] gs) h ≡ (is_unrestricted gs || has h gs)
saved-host_ok gs h =
    rw (host_ok_lem (set_from [] gs) h, saved-is_unrestricted gs, has-set_from h [] gs) refl

saved-tag_ok :
    (ts ids : List ℕ)
    → tag_ok (set_from [] ts) ids ≡ (is_unrestricted ts || any (λ i. has i ts) ids)
saved-tag_ok ts ids =
    rw (tag_ok_lem (set_from [] ts) ids, saved-is_unrestricted ts)
      (ap (λ b. is_unrestricted ts || b) (any-ext _ _ (λ i. has-set_from i [] ts) ids))

-- Behind the saving of a scope, an account that is no administrator's sees exactly what the scope allows.
pub saved-can_see :
    (u : User) (sc : Scope) (h : ℕ) (ids : List ℕ)
    → u.is_admin ≡ false
    → can_see (handle_scope sc u) h ids ≡ allows sc h ids
unfolding can_see handle_scope
saved-can_see u sc h ids n =
    rw
      (
        n,
        saved-is_unrestricted sc.hosts,
        saved-is_unrestricted sc.tags,
        saved-host_ok sc.hosts h,
        saved-tag_ok sc.tags ids,
      )
      (ground arith)
