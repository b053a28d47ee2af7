-- ===== src/Visible/Dropped.antt =====
-- What the deletion of a tag does to what an account may see: `DeleteTag` of internal/db/db.go.
use safe_dock.Common.{
  ◌≡◌, refl, sym, ap, ◌∙◌, arith, ℕ, List, [], ◌∷◌, Bool, true, false, not, ◌&&◌, ◌||◌, Text, ◌==◌,
  if◌then◌else◌, any, keep, Bool-cases, inl, inr,
}
use safe_dock.Tags.{Assignment, Store, delete_tag}
use safe_dock.Visible.{
  User, Container, holds, is_unrestricted, host_ok, tag_ok, can_see, tag_ids, ensure_scope,
  drop_from_scope,
}

abbrev others : ℕ → List ℕ → List ℕ
others t is = keep (λ i. not (i == t)) is

holds-others : (t i : ℕ) (ids : List ℕ) → holds (others t ids) i ≡ (holds ids i && not (i == t))
holds-others t i [] = refl
holds-others t i (j ∷ ids) = ground (arith, holds-others t i ids)

any-others :
    (t : ℕ) (ids is : List ℕ)
    → any (holds (others t ids)) (others t is) ≡ true
    → any (holds ids) is ≡ true
any-others t ids [] h = h
any-others t ids (i ∷ is) h = elim (Bool-cases (holds ids i)) [
  | inl held ↦ rw held refl
  | inr missing ↦ rw missing (any-others t ids is (ground (arith, holds-others t i ids)))
]

tag_ids-others :
    (t h : ℕ) (n : Text) (rows : List Assignment)
    → tag_ids h n (keep (λ a. not (a.tag_id == t)) rows) ≡ others t (tag_ids h n rows)
unfolding tag_ids
tag_ids-others t h n [] = refl
tag_ids-others t h n (a ∷ rows) = ground (arith, tag_ids-others t h n rows)

-- A test of the tags that is passed with a restriction is passed by one of them.
tag_ok-any : (is ids : List ℕ) → is_unrestricted is ≡ false → tag_ok is ids ≡ any (holds ids) is
unfolding tag_ok
tag_ok-any [] ids h = cc
tag_ok-any (i ∷ is) ids h = refl

tag_ok-others :
    (t : ℕ) (is ids : List ℕ)
    → is_unrestricted (others t is) ≡ is_unrestricted is
    → tag_ok (others t is) (others t ids) ≡ true
    → tag_ok is ids ≡ true
unfolding tag_ok
tag_ok-others t [] ids e h = refl
tag_ok-others t (i ∷ is) ids e h =
    any-others t ids (i ∷ is) (sym (tag_ok-any (others t (i ∷ is)) (others t ids) e) ∙ h)

-- One test in place of another that it follows from.
gate :
    (free closed ok a b : Bool)
    → (a ≡ true → b ≡ true)
    → (if free then true else (if closed then false else ok && a)) ≡ true
    → (if free then true else (if closed then false else ok && b)) ≡ true
gate true closed ok a b i h = refl
gate false true ok a b i h = h
gate false false true a b i h = i h
gate false false false a b i h = h

seen-others :
    (u : User) (t h : ℕ) (ids : List ℕ)
    → is_unrestricted (others t u.allowed_tags) ≡ is_unrestricted u.allowed_tags
    → can_see (drop_from_scope t u) h (others t ids) ≡ true
    → can_see u h ids ≡ true
unfolding can_see drop_from_scope
seen-others u t h ids e k =
    gate (u.is_admin || u.scope_all)
      (is_unrestricted u.allowed_hosts && is_unrestricted u.allowed_tags)
      (host_ok u.allowed_hosts h) _ _ (tag_ok-others t u.allowed_tags ids e) (rw (sym e) k)

ensure_scope_lem :
    (u : User) (s : Store) (c : Container)
    → ensure_scope u s c ≡ can_see u c.0 (tag_ids c.0 c.1 s.assignments)
unfolding ensure_scope can_see
ensure_scope_lem u s c = ground arith

-- When a tag is deleted, an account sees no container that it did not see before, unless that tag was the only one
-- that it was restricted to.
pub dropped-ensure_scope :
    (u : User) (s : Store) (t : ℕ) (c : Container)
    → is_unrestricted (drop_from_scope t u).allowed_tags ≡ is_unrestricted u.allowed_tags
    → ensure_scope (drop_from_scope t u) (delete_tag t s) c ≡ true
    → ensure_scope u s c ≡ true
unfolding delete_tag drop_from_scope
dropped-ensure_scope u s t c e h = rw (ensure_scope_lem u s c) (
    seen-others u t c.0 (tag_ids c.0 c.1 s.assignments) e (
      ap (can_see (drop_from_scope t u) c.0) (sym (tag_ids-others t c.0 c.1 s.assignments))
      ∙ (sym (ensure_scope_lem (drop_from_scope t u) (delete_tag t s) c) ∙ h)))
