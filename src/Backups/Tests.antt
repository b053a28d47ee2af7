-- ===== src/Backups/Tests.antt =====
-- Runs of the panel of the backups.
use safe_dock.Common.{◌≡◌, refl, true, false, some, List, [], ◌∷◌}
use safe_dock.Backups.{
  Config, initial, Event, loaded, toggled, keep_chosen, answered, step, begin, take_out, settle,
}
use safe_dock.Backups.Settled.{run, is_orderly, run-settled}

abbrev fourteen : Config
fourteen = record { enabled = false; keep = 14 }

abbrev patient : List Event
patient = toggled true ∷ answered 0 false ∷ keep_chosen 30 ∷ answered 0 true ∷ []

run-settled_example :
    (run initial fourteen (loaded (some fourteen) ∷ patient)).0.shown
    ≡ (run initial fourteen (loaded (some fourteen) ∷ patient)).1
unfolding run is_orderly step begin take_out settle
run-settled_example = run-settled patient fourteen refl refl
