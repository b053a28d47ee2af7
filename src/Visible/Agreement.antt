-- ===== src/Visible/Agreement.antt =====
-- The list of the containers against the check of the operations on one: internal/api/handlers.go.
use safe_dock.Common.{
  ◌≡◌, refl, sym, ◌∙◌, arith, ℕ, List, [], ◌∷◌, Bool, true, false, ◌||◌, Text, keep, Bool-cases,
  inl, inr,
}
use safe_dock.Tags.{Assignment, Store, key}
use safe_dock.Tags.Shown.{key_lem}
use safe_dock.Visible.{
  User, Container, can_see, indexed, tag_ids, handle_containers, ensure_scope, list_assignments,
}

indexed-tag_ids :
    (h : ℕ) (n : Text) (rows : List Assignment) → indexed (key h n) rows ≡ tag_ids h n rows
unfolding indexed tag_ids
indexed-tag_ids h n [] = refl
indexed-tag_ids h n (a ∷ rows) =
    ground (arith, indexed-tag_ids h n rows, key_lem a.host_id h a.container_name n)

can_see-ensure_scope :
    (u : User) (s : Store) (h : ℕ) (n : Text)
    → can_see u h (indexed (key h n) s.assignments) ≡ ensure_scope u s (h, n)
unfolding can_see ensure_scope
can_see-ensure_scope u s h n = ground (arith, indexed-tag_ids h n s.assignments)

-- Two tests that agree keep the same elements, and a test that always holds keeps them all.
keep-ext {ℓ} :
    {A : Type ℓ} (p q : A → Bool) → ((x : A) → p x ≡ q x) → (xs : List A) → keep p xs ≡ keep q xs
keep-ext p q e [] = refl
keep-ext p q e (x ∷ xs) = ground (arith, e x, keep-ext p q e xs)

keep-all {ℓ} : {A : Type ℓ} (p : A → Bool) → ((x : A) → p x ≡ true) → (xs : List A) → keep p xs ≡ xs
keep-all p e [] = refl
keep-all p e (x ∷ xs) = ground (arith, e x, keep-all p e xs)

ensure_scope-free :
    (u : User) (s : Store) (c : Container)
    → (u.is_admin || u.scope_all) ≡ true
    → ensure_scope u s c ≡ true
unfolding ensure_scope
ensure_scope-free u s c h = rw h refl

assignments_of-free :
    (u : User) (s : Store)
    → (u.is_admin || u.scope_all) ≡ true
    → list_assignments u s ≡ s.assignments
unfolding list_assignments
assignments_of-free u s h = ground arith

assignments_of-bound :
    (u : User) (s : Store)
    → (u.is_admin || u.scope_all) ≡ false
    → list_assignments u s
      ≡ keep
          (λ a. can_see u a.host_id (indexed (key a.host_id a.container_name) s.assignments))
          s.assignments
unfolding list_assignments
assignments_of-bound u s h = ground arith

-- For every account, the list of the containers holds exactly those on which the server lets it act, and the list
-- of the assignments those of these containers.
pub listed-ensure_scope :
    (u : User) (s : Store) (cs : List Container)
    → (handle_containers u s cs ≡ keep (ensure_scope u s) cs)
      × (list_assignments u s
          ≡ keep (λ a. ensure_scope u s (a.host_id, a.container_name)) s.assignments)
unfolding handle_containers
listed-ensure_scope u s cs = (
  keep-ext _ (ensure_scope u s) (λ c. can_see-ensure_scope u s c.0 c.1) cs,
  elim (Bool-cases (u.is_admin || u.scope_all)) [
    | inl free ↦
        assignments_of-free u s free
        ∙ sym (
            keep-all _ (λ a. ensure_scope-free u s (a.host_id, a.container_name) free)
              s.assignments)
    | inr bound ↦
        assignments_of-bound u s bound
        ∙ keep-ext _ _ (λ a. can_see-ensure_scope u s a.host_id a.container_name) s.assignments
  ],
)
