-- ===== src/Updates/Tests.antt =====
-- Overlapping roll-outs, and the lists over the small fleet.
use mathlib.Core.List.{Perm}
use safe_dock.Common.{◌≡◌, ◌≤◌, ◌++◌, none, List, [], ◌∷◌, codes, length}
use safe_dock.Fleet.{stats_of}
use safe_dock.Fleet.Tests.{fleet}
use safe_dock.Updates.{
  Event, triggered, replied, message_timer, finished, refused, idle, run, updates_pending,
  vulnerable,
}
use safe_dock.Updates.Lists.{untold, lists-stats_of}
use safe_dock.Updates.Overlaps.{nothing_seen, see_all, IsTold, run-shown}

lists-stats_of_example :
    Perm ((updates_pending fleet ++ vulnerable fleet) ++ untold fleet) fleet
    × (length (updates_pending fleet) ≡ (stats_of fleet).updates_available)
    × (length (vulnerable fleet) ≤ (stats_of fleet).warnings)
lists-stats_of_example = lists-stats_of fleet

-- The second one starts before the first one ends, and its message goes with the timer of the first.
abbrev overlapping : List Event
overlapping =
    triggered (codes "c1") none
    ∷ triggered (codes "c2") none
    ∷ replied (finished [])
    ∷ replied (refused 409 (codes "blocked"))
    ∷ message_timer
    ∷ triggered (codes "c3") none
    ∷ replied (refused 409 (codes "blocked"))
    ∷ []

run-shown_example : IsTold (run idle overlapping) (see_all nothing_seen overlapping)
run-shown_example = run-shown overlapping
