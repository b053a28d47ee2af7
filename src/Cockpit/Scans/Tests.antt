-- ===== src/Cockpit/Scans/Tests.antt =====
-- Overlapping requests of a cockpit.
use safe_dock.Common.{◌≡◌, true, false, List, [], ◌∷◌, codes, arith}
use safe_dock.Common.Flight.{pick}
use safe_dock.Cockpit.Scans.{
  good, refused, failed, begin, begin_history, opened, Cockpit, Event, mounted, engine_chosen,
  save_pressed, save_answered, step, run, scan, on_saved,
}
use safe_dock.Cockpit.Scans.Drained.{answers, run-drained}

-- A save that is confirmed while the first scan runs.
abbrev session : List Event
session = mounted ∷ engine_chosen (codes "grype") ∷ save_pressed ∷ save_answered 0 true ∷ []

run-drained_example :
    let d =
      run (run opened session) (answers (good [] ∷ refused ∷ []) (refused ∷ []) (failed [] ∷ [])) in
    (d.trivy.loading ≡ false) × (d.dockle.loading ≡ false) × (d.history.loading ≡ false)
unfolding run step begin begin_history pick on_saved scan
run-drained_example =
    run-drained session (good [] ∷ refused ∷ []) (refused ∷ []) (failed [] ∷ []) (omega arith)
      (omega arith) (omega arith)

abbrev saving : Cockpit
saving = run opened (mounted ∷ engine_chosen (codes "grype") ∷ save_pressed ∷ [])
