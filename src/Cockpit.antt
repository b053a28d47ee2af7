-- ===== src/Cockpit.antt =====
-- internal/web/frontend/src/components/ContainerDetailView.jsx: the table of the vulnerabilities of a
-- container, and the tags. `toLowerCase` is the parameter `to_lower`.
pub mod Order
pub mod Overrides
pub mod Scans
mod Tests
use safe_dock.Common.{
  ℕ, List, [], ◌∷◌, Bool, true, false, ◌&&◌, ◌||◌, Text, codes, is_empty, text_eq, if◌then◌else◌,
  keep, any,
}
use safe_dock.Common.Sort.{sort_by}
use safe_dock.Inventory.{Direction, asc, desc, Cell, number, text, cell_gt, includes}

-- What is read of an item of `vulnerabilities`; a missing text is empty.
pub record Vulnerability : Type 0 where
  pub cve_id : Text
  pub package_name : Text
  pub description : Text
  pub severity : Text

-- The columns that can be sorted by.
pub data Field : Type 0 where
  by_cve_id by_severity by_package : Field

abbrev is_same : Field → Field → Bool
is_same by_cve_id by_cve_id = true
is_same by_severity by_severity = true
is_same by_package by_package = true
is_same _ _ = false

pub data Filter : Type 0 where
  all : Filter
  only : Text → Filter

pub record Table : Type 0 where
  pub cve_search : Text
  pub cve_filter : Filter
  pub sort_field : Field
  pub sort_order : Direction

abbrev pub initial : Table
initial = record { cve_search = []; cve_filter = all; sort_field = by_severity; sort_order = desc }

abbrev flip : Direction → Direction
flip asc = desc
flip desc = asc

-- `handleSortCVE`
unfoldable pub sort_cve : Field → Table → Table
sort_cve f t =
    if is_same t.sort_field f
    then record t { sort_order = flip t.sort_order }
    else record t { sort_field = f; sort_order = desc }

-- `SEV_WEIGHT[severity] || 0`
unfoldable pub severity_weight : Text → ℕ
severity_weight s =
    if text_eq s (codes "CRITICAL")
    then 4
    else (if text_eq s (codes "HIGH")
        then 3
        else (if text_eq s (codes "MEDIUM") then 2 else (if text_eq s (codes "LOW") then 1 else 0)))

abbrev pub cell_of : Field → Vulnerability → Cell
cell_of by_severity v = number (severity_weight v.severity)
cell_of by_cve_id v = text v.cve_id
cell_of by_package v = text v.package_name

abbrev passes_filter : Filter → Vulnerability → Bool
passes_filter all v = true
passes_filter (only severity) v = text_eq v.severity severity

module _ (to_lower : Text → Text) where
  matches : Text → Vulnerability → Bool
  matches search v =
      let t = to_lower search in
      includes (to_lower v.cve_id) t
      || includes (to_lower v.package_name) t
      || includes (to_lower v.description) t

  -- The list before its sort: an empty search does not filter.
  unfoldable pub kept : Table → List Vulnerability → List Vulnerability
  unfolding matches
  kept t vs =
      keep (passes_filter t.cve_filter)
        (if is_empty t.cve_search then vs else keep (matches t.cve_search) vs)

  -- Whether the comparator puts the first behind the second.
  unfoldable pub puts_behind : Field → Direction → Vulnerability → Vulnerability → Bool
  puts_behind f asc a b = cell_gt to_lower (cell_of f a) (cell_of f b)
  puts_behind f desc a b = cell_gt to_lower (cell_of f b) (cell_of f a)

  -- `filteredCVEs`
  unfoldable pub filtered_cves : Table → List Vulnerability → List Vulnerability
  filtered_cves t vs = sort_by (puts_behind t.sort_field t.sort_order) (kept t vs)
