-- ===== src/Tags/Shown.antt =====
-- What the tables guarantee, and which tags of a container are shown.
use safe_dock.Common.{
  ◌≡◌, refl, ap, ◌∙◌, arith, ℕ, suc, ◌≤◌, ◌<◌, List, [], ◌∷◌, ◌++◌, Bool, true, false, not,
  Bool-cases, inl, inr, ◌&&◌, Text, is_empty, text_eq, text_eq_refl, text_eq_iff, text_eq_comm,
  ◌==◌, if◌then◌else◌, keep, any, All, All-append,
}
use safe_dock.Common.Decimal.{decimal, value-decimal, IsDigit, decimal-IsDigit}
use safe_dock.Tags.{
  Tag, Assignment, Store, Request, new_tag, drop_tag, assign, unassign, is_row, insert_tag,
  delete_tag, assign_tag, unassign_tag, is_complete, serve, run, key, name_by_id, names_under,
  tags_of, has_tag,
}

-- A tag that can stand in the table, below the number that comes next.
abbrev IsFit : ℕ → Tag → Type 0
IsFit next t = (1 ≤ t.id) × (t.id < next) × (is_empty t.name ≡ false)

abbrev are_distinct : Tag → Tag → Bool
are_distinct t u = not (u.id == t.id) && not (text_eq u.name t.name)

abbrev Distinct : List Tag → Type 0
Distinct [] = Unit
Distinct (t ∷ ts) = All (λ u. are_distinct t u ≡ true) ts × Distinct ts

pub record IsValid (s : Store) : Type 0 where
  pub started : 1 ≤ s.next_id
  pub fit : All (IsFit s.next_id) s.tags
  pub distinct : Distinct s.tags

abbrev pub is_tag : Tag → Tag → Bool
is_tag u t = t.id == u.id && text_eq t.name u.name

-- The tag stands in the table.
abbrev pub IsListed : Tag → List Tag → Type 0
IsListed u ts = any (is_tag u) ts ≡ true

module _ {ℓ κ} {A : Type ℓ} (P : A → Type κ) (p : A → Bool) where
  All-keep : (xs : List A) → All P xs → All P (keep p xs)
  All-keep [] h = tt
  All-keep (x ∷ xs) h = elim (p x) as (λ b. All P (if b then x ∷ keep p xs else keep p xs)) [
    | true ↦ (h.0, All-keep xs h.1)
    | false ↦ All-keep xs h.1
  ]

Distinct-keep : (p : Tag → Bool) (ts : List Tag) → Distinct ts → Distinct (keep p ts)
Distinct-keep p [] h = tt
Distinct-keep p (t ∷ ts) h =
    elim (p t) as (λ b. Distinct (if b then t ∷ keep p ts else keep p ts)) [
      | true ↦ (All-keep (λ u. are_distinct t u ≡ true) p ts h.0, Distinct-keep p ts h.1)
      | false ↦ Distinct-keep p ts h.1
    ]

IsFit-later : (next : ℕ) (ts : List Tag) → All (IsFit next) ts → All (IsFit (suc next)) ts
IsFit-later next [] h = tt
IsFit-later next (t ∷ ts) h = ((h.0.0, omega arith, h.0.2), IsFit-later next ts h.1)

Distinct-create :
    (next : ℕ) (name : Text) (ts : List Tag)
    → All (IsFit next) ts
    → any (λ t. text_eq t.name name) ts ≡ false
    → Distinct ts
    → Distinct (ts ++ (record { id = next; name = name }) ∷ [])
Distinct-create next name [] f a h = (tt, tt)
Distinct-create next name (t ∷ ts) f a h = (
  All-append (λ u. are_distinct t u ≡ true) ts _ h.0 (ground (arith, text_eq_comm name t.name), tt),
  Distinct-create next name ts f.1 (ground arith) h.1,
)

if_lem {ℓ κ} :
    {A : Type ℓ} (P : A → Type κ) (b : Bool) {x y : A}
    → (b ≡ true → P x)
    → (b ≡ false → P y)
    → P (if b then x else y)
if_lem P true h k = h refl
if_lem P false h k = k refl

abbrev KeepsValid : Store × Bool → Type 0
KeepsValid r = IsValid r.0

insert_tag-IsValid :
    (name : Text) (s : Store) → is_empty name ≡ false → IsValid s → IsValid (insert_tag name s).0
unfolding insert_tag
insert_tag-IsValid name s e v =
    if_lem KeepsValid (any (λ t. text_eq t.name name) s.tags) (λ q. v)
      (λ q. record {
        started = omega arith;
        fit =
            All-append (IsFit (suc s.next_id)) s.tags _ (IsFit-later s.next_id s.tags v.fit)
              ((v.started, omega arith, e), tt);
        distinct = Distinct-create s.next_id name s.tags v.fit q v.distinct;
      })

delete_tag-IsValid : (id : ℕ) (s : Store) → IsValid s → IsValid (delete_tag id s)
unfolding delete_tag
delete_tag-IsValid id s v = record {
  started = v.started;
  fit = All-keep (IsFit s.next_id) (λ t. not (t.id == id)) s.tags v.fit;
  distinct = Distinct-keep (λ t. not (t.id == id)) s.tags v.distinct;
}

-- Assignments leave the tags as they are.
assign_tag-IsValid : (t h : ℕ) (n : Text) (s : Store) → IsValid s → IsValid (assign_tag t h n s)
unfolding assign_tag
assign_tag-IsValid t h n s v =
    if_lem IsValid (any (is_row t h n) s.assignments) (λ q. v)
      (λ q. record { started = v.started; fit = v.fit; distinct = v.distinct })

unassign_tag-IsValid : (t h : ℕ) (n : Text) (s : Store) → IsValid s → IsValid (unassign_tag t h n s)
unfolding unassign_tag
unassign_tag-IsValid t h n s v = record { started = v.started; fit = v.fit; distinct = v.distinct }

module _ (trim_space : Text → Text) where
  pub serve-IsValid : (r : Request) (s : Store) → IsValid s → IsValid (serve trim_space r s).0
  unfolding serve
  serve-IsValid (new_tag name) s v =
      if_lem KeepsValid (is_empty (trim_space name)) (λ q. v)
        (λ q. insert_tag-IsValid (trim_space name) s q v)
  serve-IsValid (drop_tag id) s v =
      if_lem KeepsValid (id == 0) (λ q. v) (λ q. delete_tag-IsValid id s v)
  serve-IsValid (assign t h n) s v =
      if_lem KeepsValid (is_complete t n) (λ q. assign_tag-IsValid t h n s v) (λ q. v)
  serve-IsValid (unassign t h n) s v =
      if_lem KeepsValid (is_complete t n) (λ q. unassign_tag-IsValid t h n s v) (λ q. v)

  pub run-IsValid : (rs : List Request) (s : Store) → IsValid s → IsValid (run trim_space s rs)
  unfolding run
  run-IsValid [] s v = v
  run-IsValid (r ∷ rs) s v = run-IsValid rs (serve trim_space r s).0 (serve-IsValid r s v)

-- Two keys are the same only for one host and one name, since a number has no `|`.
bar_lem :
    (ds es n m : Text)
    → All IsDigit ds
    → All IsDigit es
    → text_eq (ds ++ (b'|' ∷ n)) (es ++ (b'|' ∷ m)) ≡ (text_eq ds es && text_eq n m)
unfolding text_eq
bar_lem [] [] n m p q = refl
bar_lem [] (e ∷ es) n m p q = ground arith
bar_lem (d ∷ ds) [] n m p q = ground arith
bar_lem (d ∷ ds) (e ∷ es) n m p q = ground (arith, bar_lem ds es n m p.1 q.1)

decimal_lem : (h k : ℕ) → text_eq (decimal h) (decimal k) ≡ (h == k)
decimal_lem h k = ground (
  arith,
  text_eq_iff (decimal h) (decimal k),
  text_eq_refl (decimal h),
  value-decimal h,
  value-decimal k,
)

pub key_lem : (h k : ℕ) (n m : Text) → text_eq (key h n) (key k m) ≡ ((h == k) && text_eq n m)
unfolding key
key_lem h k n m =
    bar_lem (decimal h) (decimal k) n m (decimal-IsDigit h) (decimal-IsDigit k)
    ∙ ap (λ b. b && text_eq n m) (decimal_lem h k)

name_by_id-absent :
    (m : Text) (ts : List Tag) (id : ℕ)
    → is_empty m ≡ false
    → any (λ u. text_eq u.name m) ts ≡ false
    → text_eq (name_by_id ts id) m ≡ false
unfolding name_by_id text_eq
name_by_id-absent [] [] id e a = cc
name_by_id-absent (c ∷ m) [] id e a = refl
name_by_id-absent m (t ∷ ts) id e a = ground (arith, name_by_id-absent m ts id e)

-- A name belongs to its tag alone.
listed-distinct :
    (u t : Tag) (ts : List Tag)
    → IsListed u ts
    → All (λ w. are_distinct t w ≡ true) ts
    → are_distinct t u ≡ true
listed-distinct u t [] i d = absurd (ground arith)
listed-distinct u t (w ∷ ts) i d = ground (arith, text_eq_iff w.name u.name, listed-distinct u t ts)

absent :
    (t : Tag) (ts : List Tag)
    → All (λ w. are_distinct t w ≡ true) ts
    → any (λ u. text_eq u.name t.name) ts ≡ false
absent t [] d = refl
absent t (w ∷ ts) d = ground (arith, absent t ts d.1)

name_by_id_lem :
    (u : Tag) (ts : List Tag) (id : ℕ)
    → is_empty u.name ≡ false
    → Distinct ts
    → IsListed u ts
    → text_eq (name_by_id ts id) u.name ≡ (id == u.id)
unfolding name_by_id
name_by_id_lem u [] id e d i = absurd (ground arith)
name_by_id_lem u (t ∷ ts) id e d i = elim (Bool-cases (is_tag u t)) [
  | inl here ↦
      let same : t.name ≡ u.name = ground (arith, text_eq_iff t.name u.name) in
      let others = name_by_id-absent t.name ts id (rw same e) (absent t ts d.0) in
      ground (arith, text_eq_refl u.name)
  | inr there ↦
      let listed : IsListed u ts = ground arith in
      ground (
        arith,
        listed-distinct u t ts listed d.0,
        name_by_id_lem u ts id e d.1 listed,
        text_eq_comm t.name u.name,
      )
]

pub named :
    (next : ℕ) (u : Tag) (ts : List Tag)
    → All (IsFit next) ts
    → IsListed u ts
    → (1 ≤ u.id) × (is_empty u.name ≡ false)
named next u [] f i = absurd (ground arith)
named next u (t ∷ ts) f i = ground (arith, text_eq_iff t.name u.name, named next u ts f.1)

shown-filled : (m u : Text) → is_empty u ≡ false → text_eq m u ≡ true → is_empty m ≡ false
unfolding text_eq
shown-filled [] [] e q = cc
shown-filled [] (c ∷ u) e q = cc
shown-filled (c ∷ m) u e q = refl

names_under_lem :
    (u : Tag) (ts : List Tag) (h : ℕ) (n : Text) (rows : List Assignment)
    → is_empty u.name ≡ false
    → Distinct ts
    → IsListed u ts
    → has_tag u.name (names_under ts (key h n) rows) ≡ any (is_row u.id h n) rows
unfolding names_under is_row
names_under_lem u ts h n [] e d i = refl
names_under_lem u ts h n (a ∷ rows) e d i = ground (
  arith,
  key_lem a.host_id h a.container_name n,
  name_by_id_lem u ts a.tag_id e d i,
  names_under_lem u ts h n rows e d i,
  shown-filled (name_by_id ts a.tag_id) u.name e,
)

-- A listed tag is shown on a container exactly if there is a row for them.
pub tags_of_lem :
    (u : Tag) (s : Store) (h : ℕ) (n : Text)
    → IsValid s
    → IsListed u s.tags
    → has_tag u.name (tags_of s h n) ≡ any (is_row u.id h n) s.assignments
unfolding tags_of
tags_of_lem u s h n v i =
    names_under_lem u s.tags h n s.assignments (named s.next_id u s.tags v.fit i).1 v.distinct i
