-- ===== src/Inventory/Tests.antt =====
-- Runs of the table over the small fleet.
use safe_dock.Common.{ℕ, ◌≡◌, List, [], ◌∷◌, codes, map, length, drop, Text}
use safe_dock.Fleet.Tests.{fleet}
use safe_dock.Inventory.{
  View, Event, initial, name, host_name, desc, sorted_by, next, page_chosen, safe_page,
}
use safe_dock.Inventory.Paging.{IsShown, run, run-IsShown}
use safe_dock.Inventory.Csv.{columns, headers, export_csv}
use safe_dock.Inventory.Csv.Reader.{read_csv}
use safe_dock.Inventory.Csv.RoundTrip.{read_csv-export_csv}

-- `toLowerCase` on ASCII text that is in lower case.
abbrev same : Text → Text
same s = s

abbrev seven : List ℕ
seven = 1 ∷ 2 ∷ 3 ∷ 4 ∷ 5 ∷ 6 ∷ 7 ∷ []

-- The user turns to the third page of 25 entries, and 18 entries go.
abbrev session : List (ℕ × Event)
session = (25, sorted_by name) ∷ (25, page_chosen 1) ∷ (25, next) ∷ []

run-IsShown_example :
    IsShown
      (run initial session).per_page
      (safe_page (length seven) (run initial session).per_page (run initial session).page)
      seven
run-IsShown_example = run-IsShown session seven

abbrev by_host : View
by_host = record initial { search_term = codes "r"; sort_field = host_name; sort_dir = desc }

read_csv-export_csv_example : read_csv (drop 1 (export_csv fleet)) ≡ headers ∷ map columns fleet
read_csv-export_csv_example = read_csv-export_csv fleet
