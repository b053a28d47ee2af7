-- ===== src/Tags/Toggled.antt =====
-- What a press of a tag's button does to the tags that the pages show.
use safe_dock.Common.{
  ◌≤◌, ◌≡◌, refl, sym, ap, ◌∙◌, arith, ℕ, List, [], ◌∷◌, ◌++◌, Bool, true, false, not, ◌&&◌, ◌||◌,
  Bool-cases, inl, inr, Text, is_empty, text_eq, text_eq_iff, text_eq_comm, ◌==◌, if◌then◌else◌,
  keep, any,
}
use safe_dock.Tags.{
  Tag, Assignment, Store, Request, assign, unassign, is_row, assign_tag, unassign_tag, is_complete,
  serve, tags_of, has_tag, toggle_tag,
}
use safe_dock.Tags.Shown.{IsValid, IsListed, named, serve-IsValid, tags_of_lem}

-- Whether one tag on one container is another tag on another container.
abbrev pub concerns : (t : Tag) (h : ℕ) (n : Text) (u : Tag) (k : ℕ) (m : Text) → Bool
concerns t h n u k m = u.id == t.id && (k == h && text_eq m n)

any-append :
    (p : Assignment → Bool) (rows : List Assignment) (a : Assignment)
    → any p (rows ++ a ∷ []) ≡ (any p rows || p a)
any-append p [] a = ground arith
any-append p (b ∷ rows) a = ground (arith, any-append p rows a)

unassigned_row :
    (t : Tag) (h : ℕ) (n : Text) (u : Tag) (k : ℕ) (m : Text) (a : Assignment)
    → is_row u.id k m a ≡ true
    → is_row t.id h n a ≡ concerns t h n u k m
unfolding is_row
unassigned_row t h n u k m a q = ground (arith, text_eq_iff a.container_name m)

any-keep :
    (t : Tag) (h : ℕ) (n : Text) (u : Tag) (k : ℕ) (m : Text) (rows : List Assignment)
    → any (is_row u.id k m) (keep (λ a. not (is_row t.id h n a)) rows)
      ≡ (any (is_row u.id k m) rows && not (concerns t h n u k m))
any-keep t h n u k m [] = refl
any-keep t h n u k m (a ∷ rows) =
    ground (arith, unassigned_row t h n u k m a, any-keep t h n u k m rows)

is_row_self :
    (t : Tag) (h : ℕ) (n : Text) (u : Tag) (k : ℕ) (m : Text)
    → is_row u.id k m (record { tag_id = t.id; host_id = h; container_name = n })
      ≡ concerns t h n u k m
unfolding is_row
is_row_self t h n u k m = ground (arith, text_eq_comm n m)

same_row :
    (t : Tag) (h : ℕ) (n : Text) (u : Tag) (k : ℕ) (m : Text) (rows : List Assignment)
    → concerns t h n u k m ≡ true
    → any (is_row u.id k m) rows ≡ any (is_row t.id h n) rows
same_row t h n u k m rows q = ground (arith, text_eq_iff m n)

complete : (t : Tag) (n : Text) → 1 ≤ t.id → is_empty n ≡ false → is_complete t.id n ≡ true
unfolding is_complete
complete t n p q = ground arith

abbrev pub flipped_if : Bool → Bool → Bool
flipped_if b c = if b then not c else c

module _ (trim_space : Text → Text) where
  unassigned :
      (t : Tag) (s : Store) (h : ℕ) (n : Text) (u : Tag) (k : ℕ) (m : Text)
      → is_complete t.id n ≡ true
      → any (is_row t.id h n) s.assignments ≡ true
      → let after = serve trim_space (unassign t.id h n) s in
        (after.1 ≡ true)
        × (after.0.tags ≡ s.tags)
        × (any (is_row u.id k m) after.0.assignments
            ≡ flipped_if (concerns t h n u k m) (any (is_row u.id k m) s.assignments))
  unfolding serve unassign_tag
  unassigned t s h n u k m c on = rw c (
    refl,
    refl,
    ground (arith, any-keep t h n u k m s.assignments, same_row t h n u k m s.assignments),
  )

  assigned :
      (t : Tag) (s : Store) (h : ℕ) (n : Text) (u : Tag) (k : ℕ) (m : Text)
      → is_complete t.id n ≡ true
      → any (is_row t.id h n) s.assignments ≡ false
      → let after = serve trim_space (assign t.id h n) s in
        (after.1 ≡ true)
        × (after.0.tags ≡ s.tags)
        × (any (is_row u.id k m) after.0.assignments
            ≡ flipped_if (concerns t h n u k m) (any (is_row u.id k m) s.assignments))
  unfolding serve assign_tag
  assigned t s h n u k m c off =
      rw (c, off)
        (
          refl,
          refl,
          ground (
            arith,
            any-append (is_row u.id k m) s.assignments
                (record { tag_id = t.id; host_id = h; container_name = n }),
            is_row_self t h n u k m,
            same_row t h n u k m s.assignments,
          ),
        )

  -- The button of a tag turns over that tag on that container, and no other: whatever the tables hold,
  -- if the tag and the container are there, then the request of the press is accepted, and whether a tag
  -- is shown on a container of any host changes just for these two.
  pub toggled-tags_of :
      (s : Store) (t u : Tag) (h k : ℕ) (n m : Text)
      → IsValid s
      → IsListed t s.tags
      → IsListed u s.tags
      → is_empty n ≡ false
      → let after = serve trim_space (toggle_tag (tags_of s h n) t h n) s in
        (after.1 ≡ true)
        × (has_tag u.name (tags_of after.0 k m) ≡ (
            if concerns t h n u k m
            then not (has_tag u.name (tags_of s k m))
            else has_tag u.name (tags_of s k m)))
  unfolding toggle_tag
  toggled-tags_of s t u h k n m v i j e = elim (Bool-cases (has_tag t.name (tags_of s h n))) [
    | inl on ↦
        let r = unassigned t s h n u k m c (sym (tags_of_lem t s h n v i) ∙ on) in
        rw on (r.0, shown (unassign t.id h n) r.1 r.2)
    | inr off ↦
        let r = assigned t s h n u k m c (sym (tags_of_lem t s h n v i) ∙ off) in
        rw off (r.0, shown (assign t.id h n) r.1 r.2)
  ]
    where
      c : is_complete t.id n ≡ true
      c = let f = named s.next_id t s.tags v.fit i in complete t n f.0 e

      shown :
          (r : Request)
          → (serve trim_space r s).0.tags ≡ s.tags
          → any (is_row u.id k m) (serve trim_space r s).0.assignments
            ≡ flipped_if (concerns t h n u k m) (any (is_row u.id k m) s.assignments)
          → has_tag u.name (tags_of (serve trim_space r s).0 k m)
            ≡ flipped_if (concerns t h n u k m) (has_tag u.name (tags_of s k m))
      shown r q w =
          tags_of_lem u (serve trim_space r s).0 k m (serve-IsValid trim_space r s v) (rw q j)
          ∙ (w ∙ ap (flipped_if (concerns t h n u k m)) (sym (tags_of_lem u s k m v j)))
