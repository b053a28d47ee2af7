-- ===== src/Inventory.antt =====
-- internal/web/frontend/src/components/ContainersView.jsx: the searchable, sortable, paged table of
-- the containers and its export. `toLowerCase` (the case tables of Unicode) is the parameter
-- `to_lower`.
pub mod Csv
pub mod Order
pub mod Paging
mod Tests
use safe_dock.Common.{
  ℕ, zero, suc, ◌+◌, ◌-◌, ◌*◌, ◌/◌, max, min, List, [], ◌∷◌, ◌++◌, map, Bool, true, false, not,
  ◌&&◌, ◌||◌, Option, none, some, String, Text, codes, ltb, leb, ◌==◌, if◌then◌else◌, length, keep,
  take, drop,
}
use safe_dock.Common.Sort.{sort_by}
use safe_dock.Fleet.{Container}

-- The columns that can be sorted by.
pub data Field : Type 0 where
  score name host_name image_name tag_pinned non_root privileged_safe : Field

pub data Direction : Type 0 where
  asc desc : Direction

abbrev pub field_code : Field → ℕ
field_code score = 0
field_code name = 1
field_code host_name = 2
field_code image_name = 3
field_code tag_pinned = 4
field_code non_root = 5
field_code privileged_safe = 6

-- The state of the component, without the containers, which are a property.
pub record View : Type 0 where
  pub search_term : Text
  pub sort_field : Field
  pub sort_dir : Direction
  pub page : ℕ
  pub per_page : ℕ

abbrev pub initial : View
initial = record { search_term = []; sort_field = name; sort_dir = asc; page = 1; per_page = 10 }

abbrev flip : Direction → Direction
flip asc = desc
flip desc = asc

-- What the user can do; `per_page_chosen` stands for one of the options 5, 10, 25 and 50.
pub data PerPage : Type 0 where
  five ten twenty_five fifty : PerPage

abbrev pub per_page_of : PerPage → ℕ
per_page_of five = 5
per_page_of ten = 10
per_page_of twenty_five = 25
per_page_of fifty = 50

pub data Event : Type 0 where
  sorted_by : Field → Event
  searched : Text → Event
  per_page_chosen : PerPage → Event
  previous next : Event
  page_chosen : ℕ → Event

-- The comparison of texts by code units, `av < bv`.
unfoldable pub text_lt : Text → Text → Bool
text_lt [] [] = false
text_lt [] (b ∷ t) = true
text_lt (a ∷ s) [] = false
text_lt (a ∷ s) (b ∷ t) = if ltb a b then true else (a == b) && text_lt s t

-- `s.includes(t)`
abbrev pub has_prefix : Text → Text → Bool
has_prefix s [] = true
has_prefix [] (b ∷ t) = false
has_prefix (a ∷ s) (b ∷ t) = (a == b) && has_prefix s t

unfoldable pub includes : Text → Text → Bool
includes [] t = has_prefix [] t
includes (a ∷ s) t = has_prefix (a ∷ s) t || includes s t

-- `tags.join(' ')`
unfoldable pub join : Text → List Text → Text
join sep [] = []
join sep (s ∷ []) = s
join sep (s ∷ t ∷ ts) = s ++ (sep ++ join sep (t ∷ ts))

-- The value of a column: `a[sortField]`.
pub data Cell : Type 0 where
  flag : Bool → Cell
  number : ℕ → Cell
  text : Text → Cell

abbrev pub cell : Field → Container → Cell
cell score c = number c.score
cell name c = text c.name
cell host_name c = text c.host_name
cell image_name c = text c.image_name
cell tag_pinned c = flag c.tag_pinned
cell non_root c = flag c.non_root
cell privileged_safe c = flag c.privileged_safe

abbrev bit : Bool → ℕ
bit true = 1
bit false = 0

module _ (to_lower : Text → Text) where
  -- `filtered`
  matches : Text → Container → Bool
  matches term c =
      let t = to_lower term in
      includes (to_lower c.name) t
      || includes (to_lower c.image_name) t
      || includes (to_lower c.image_tag) t
      || includes (to_lower c.host_name) t
      || includes (to_lower (join (codes " ") c.tags)) t

  unfoldable pub filtered : View → List Container → List Container
  unfolding matches
  filtered v cs = keep (matches v.search_term) cs

  -- Whether the comparator's result is positive, for an ascending order. The two cells are of one
  -- column, and so always of one kind.
  unfoldable pub cell_gt : Cell → Cell → Bool
  cell_gt (flag a) (flag b) = ltb (bit b) (bit a)
  cell_gt (number a) (number b) = ltb b a
  cell_gt (text a) (text b) = text_lt (to_lower b) (to_lower a)
  cell_gt _ _ = false

  unfoldable pub puts_behind : Field → Direction → Container → Container → Bool
  unfolding cell_gt
  puts_behind f asc a b = cell_gt (cell f a) (cell f b)
  puts_behind f desc a b = cell_gt (cell f b) (cell f a)

  -- `sorted`
  unfoldable pub sorted : View → List Container → List Container
  sorted v cs = sort_by (puts_behind v.sort_field v.sort_dir) (filtered v cs)

-- `Math.ceil(total / perPage) || 1`
unfoldable pub total_pages : ℕ → ℕ → ℕ
total_pages total per_page =
    let pages : ℕ = (total + (per_page - 1)) / per_page in if pages == 0 then 1 else pages

-- `safePage`
unfoldable pub safe_page : ℕ → ℕ → ℕ → ℕ
safe_page total per_page page = min page (total_pages total per_page)

-- `sorted.slice((safePage - 1) * perPage, safePage * perPage)`
unfoldable pub slice_of {ℓ} : {A : Type ℓ} → ℕ → ℕ → List A → List A
slice_of per_page safe xs =
    take (safe * per_page - (safe - 1) * per_page) (drop ((safe - 1) * per_page) xs)

-- The range that is shown under the table, `from–to`.
unfoldable pub shown_range : ℕ → ℕ → ℕ → ℕ × ℕ
shown_range total per_page safe =
    (if ltb 0 total then (safe - 1) * per_page + 1 else 0, min (safe * per_page) total)

-- The handlers. A page button `i + 1` exists for each page where there are several, and the
-- buttons at the two ends are disabled on the first and the last page.
unfoldable pub step : ℕ → View → Event → View
step total v (sorted_by f) =
    if field_code v.sort_field == field_code f
    then record v { sort_dir = flip v.sort_dir; page = 1 }
    else record v { sort_field = f; sort_dir = asc; page = 1 }
step total v (searched t) = record v { search_term = t; page = 1 }
step total v (per_page_chosen n) = record v { per_page = per_page_of n; page = 1 }
step total v previous =
    if safe_page total v.per_page v.page == 1 then v else record v { page = max (v.page - 1) 1 }
step total v next =
    if safe_page total v.per_page v.page == total_pages total v.per_page
    then v
    else record v { page = min (v.page + 1) (total_pages total v.per_page) }
step total v (page_chosen i) =
    if ltb 1 (total_pages total v.per_page) && ltb i (total_pages total v.per_page)
    then record v { page = i + 1 }
    else v
