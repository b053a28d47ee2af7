-- ===== src/Inventory/Paging.antt =====
-- The pages of the table.
use native.Mathlib.Nat.{div-add-mod, mod-lt}
use Prim.Native.Nat.add
use safe_dock.Common.{
  ℕ, zero, suc, ◌+◌, ◌-◌, ◌*◌, ◌/◌, ◌%◌, ◌≤◌, ◌<◌, ◌≡◌, refl, sym, ap, ◌∙◌, arith, min, List, [],
  ◌∷◌, ◌++◌, length, take, drop, length-take, length-drop,
}
use safe_dock.Inventory.{
  View, Event, sorted_by, searched, per_page_chosen, previous, next, page_chosen, PerPage, five,
  ten, twenty_five, fifty, per_page_of, initial, total_pages, safe_page, slice_of, shown_range,
  step,
}

-- The quotient of `n + (p - 1)` by `p`, from its remainder.
quotient_bounds :
    (q n p r : ℕ)
    → p * q + r ≡ n + (p - 1)
    → r < p
    → (n ≤ q * p) × (0 < n → 0 < q) × (0 < n → (q - 1) * p < n)
quotient_bounds zero n p r e h =
    (omega arith, λ pos. absurd (omega arith), λ pos. absurd (omega arith))
quotient_bounds (suc q) n p r e h =
    let one_less : (suc q - 1) * p ≡ q * p = ap (λ (k : ℕ). k * p) (omega arith) in
    (omega arith, λ _. omega arith, λ pos. omega arith)

-- The pages hold all entries, and the last one is not empty.
total_pages_bounds :
    (n p : ℕ)
    → 0 < p
    → (n ≤ total_pages n p * p) × (1 ≤ total_pages n p) × (0 < n → (total_pages n p - 1) * p < n)
unfolding total_pages
total_pages_bounds n p h =
    let q : ℕ = (n + (p - 1)) / p in
    let (enough, some_page, needed) =
      quotient_bounds q n p ((n + (p - 1)) % p) (div-add-mod (n + (p - 1)) p)
        (mod-lt (n + (p - 1)) h) in
    ground arith

module _ {ℓ} {A : Type ℓ} where
  take-nil : (n : ℕ) → take {A = A} n [] ≡ []
  take-nil zero = refl
  take-nil (suc n) = refl

  take-take-drop : (m n : ℕ) (xs : List A) → take m xs ++ take n (drop m xs) ≡ take (m + n) xs
  take-take-drop zero n xs = rw (add.zero n)
  take-take-drop (suc m) n [] = take-nil n ∙ sym (take-nil (suc m + n))
  take-take-drop (suc m) n (x ∷ xs) = rw (add.suc m n) (ap (x ∷◌) (take-take-drop m n xs))

  take-all : (n : ℕ) (xs : List A) → length xs ≤ n → take n xs ≡ xs
  take-all zero [] h = refl
  take-all zero (x ∷ xs) h = absurd (omega arith)
  take-all (suc n) [] h = refl
  take-all (suc n) (x ∷ xs) h = ap (x ∷◌) (take-all n xs (omega arith))

  -- The first pages, one after the other.
  abbrev pub pages_upto : ℕ → ℕ → List A → List A
  pages_upto p zero xs = []
  pages_upto p (suc k) xs = pages_upto p k xs ++ slice_of p (suc k) xs

  slice_of-suc : (p k : ℕ) (xs : List A) → slice_of p (suc k) xs ≡ take p (drop (k * p) xs)
  unfolding slice_of
  slice_of-suc p k xs =
      let before : suc k - 1 ≡ k = omega arith in
      let width : suc k * p - k * p ≡ p = omega arith in rw (before, width)

  pages_upto-take : (p k : ℕ) (xs : List A) → pages_upto p k xs ≡ take (k * p) xs
  pages_upto-take p zero xs = let none_yet : 0 * p ≡ 0 = omega arith in rw none_yet
  pages_upto-take p (suc k) xs =
      let next_end : suc k * p ≡ k * p + p = omega arith in
      rw (pages_upto-take p k xs, slice_of-suc p k xs, next_end) (take-take-drop (k * p) p xs)

  -- Turning over all the pages shows every entry exactly once and in order: the pages up to the
  -- last one, put together, are the table.
  pages_upto-total_pages :
      (p : ℕ) (xs : List A) → 0 < p → pages_upto p (total_pages (length xs) p) xs ≡ xs
  pages_upto-total_pages p xs h =
      pages_upto-take p (total_pages (length xs) p) xs
      ∙ take-all _ xs (total_pages_bounds (length xs) p h).0

-- A page `suc k` within the pages begins before the end of a table that is not empty.
begins_within : (n p k : ℕ) → 0 < p → suc k ≤ total_pages n p → 0 < n → k * p < n
begins_within n p k h within pos =
    let (_, _, needed) = total_pages_bounds n p h in
    let order : k ≤ total_pages n p - 1 = omega arith in grind (arith, needed pos)

module _ {ℓ} {A : Type ℓ} where
  -- What the component shows of a table: the entries, and the range under them.
  pub record IsShown (p safe : ℕ) (xs : List A) : Type 0 where
    pub first_page : 1 ≤ safe
    pub last_page : safe ≤ total_pages (length xs) p
    pub fits : length (slice_of p safe xs) ≤ p
    pub not_empty : min 1 (length xs) ≤ length (slice_of p safe xs)
    pub range :
        (shown_range (length xs) p safe).0 + length (slice_of p safe xs)
        ≡ (shown_range (length xs) p safe).1 + min 1 (length xs)

  length-slice_of :
      (p k : ℕ) (xs : List A) → length (slice_of p (suc k) xs) ≡ min p (length xs - k * p)
  length-slice_of p k xs =
      rw (slice_of-suc p k xs, length-take p (drop (k * p) xs), length-drop (k * p) xs)

  IsShown-suc :
      (p k : ℕ) (xs : List A) → 0 < p → suc k ≤ total_pages (length xs) p → IsShown p (suc k) xs
  unfolding shown_range
  IsShown-suc p k xs h within =
      let size = length-slice_of p k xs in
      let start : (suc k - 1) * p ≡ k * p = ap (λ (j : ℕ). j * p) (omega arith) in
      record {
        first_page = omega arith;
        last_page = within;
        fits = omega arith;
        not_empty = ground (arith, begins_within (length xs) p k h within);
        range = ground (arith, begins_within (length xs) p k h within);
      }

  IsShown-at :
      (p safe : ℕ) (xs : List A)
      → 0 < p
      → 1 ≤ safe
      → safe ≤ total_pages (length xs) p
      → IsShown p safe xs
  IsShown-at p zero xs h low high = absurd (omega arith)
  IsShown-at p (suc k) xs h low high = IsShown-suc p k xs h high

  -- Whatever page is asked for, the page that is shown exists, holds at most the chosen number of
  -- entries, is not empty unless the table is, and the range under it counts just its entries.
  pub safe_page-IsShown :
      (p page : ℕ) (xs : List A) → 0 < p → 1 ≤ page → IsShown p (safe_page (length xs) p page) xs
  unfolding safe_page
  safe_page-IsShown p page xs h low =
      let (_, some_page, _) = total_pages_bounds (length xs) p h in
      IsShown-at p _ xs h (omega arith) (omega arith)

-- The state that the component can be in.
pub record IsValid (v : View) : Type 0 where
  pub page_pos : 1 ≤ v.page
  pub per_page_pos : 0 < v.per_page

per_page_of_pos : (n : PerPage) → 0 < per_page_of n
per_page_of_pos five = omega arith
per_page_of_pos ten = omega arith
per_page_of_pos twenty_five = omega arith
per_page_of_pos fifty = omega arith

step-IsValid : (total : ℕ) (v : View) (e : Event) → IsValid v → IsValid (step total v e)
unfolding step
step-IsValid total v (sorted_by f) h = ground arith
step-IsValid total v (searched t) h = omega arith
step-IsValid total v (per_page_chosen n) h = omega (arith, per_page_of_pos n)
step-IsValid total v previous h = ground arith
step-IsValid total v next h =
    let (_, some_page, _) = total_pages_bounds total v.per_page h.per_page_pos in ground arith
step-IsValid total v (page_chosen i) h = ground arith

-- A session: each event meets the number of entries that the table has by then, since searches and
-- the polling of the server change it.
abbrev pub run : View → List (ℕ × Event) → View
run v [] = v
run v ((total, e) ∷ es) = run (step total v e) es

run-IsValid : (v : View) (es : List (ℕ × Event)) → IsValid v → IsValid (run v es)
run-IsValid v [] h = h
run-IsValid v ((total, e) ∷ es) h = run-IsValid (step total v e) es (step-IsValid total v e h)

-- After any session, over any table, the component shows a page that exists and is not empty
-- unless the table is, and counts it rightly: searching, sorting, turning pages or losing entries
-- never leaves the user on a page behind the end.
pub run-IsShown {ℓ} :
    {A : Type ℓ} (es : List (ℕ × Event)) (xs : List A)
    → let v = run initial es in IsShown v.per_page (safe_page (length xs) v.per_page v.page) xs
run-IsShown es xs =
    let v =
      run-IsValid initial es (record { page_pos = omega arith; per_page_pos = omega arith }) in
    safe_page-IsShown _ _ xs v.per_page_pos v.page_pos
