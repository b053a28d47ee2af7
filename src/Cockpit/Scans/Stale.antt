-- ===== src/Cockpit/Scans/Stale.antt =====
-- What overlapping requests of the cockpit can leave behind.
use safe_dock.Common.{◌≡◌, arith, ℕ, suc, List, [], ◌∷◌, true, none, some, Text, length}
use safe_dock.Common.Flight.{pick, pick-last}
use safe_dock.Cockpit.{Vulnerability, Table}
use safe_dock.Cockpit.Overrides.{prefill}
use safe_dock.Cockpit.Scans.{
  good, failed, begin, take_answer, finish, Cockpit, get_trivy, delete_override, delete_pressed,
  trivy_answered, save_answered, delete_answered, scan, on_saved, on_deleted, step, run, message,
  trivy_panel,
}

-- Deleting an override asks for a scan with its scanner once more: in every state, when the deletion
-- that has just been asked for is confirmed, the form inherits everything, and yet the scan that is
-- started names the scanner that the form named before.
deleted-get_trivy :
    (c : Cockpit)
    → let d = (step c delete_pressed).0 in
      let after = step d (delete_answered (length c.deletes) true) in
      ((step c delete_pressed).1 ≡ delete_override ∷ [])
      × (after.0.form ≡ prefill none)
      × (after.1 ≡ get_trivy c.form.engine ∷ [])
unfolding step on_deleted scan
deleted-get_trivy c = ground (arith, pick-last c.form.engine c.deletes)

-- An old error hides a new report: whatever the state in which a scan is on its way, if a save is
-- confirmed, the older scan then fails with a message and the newer one brings its report, the report
-- is kept and the tab shows the message.
overlapped-message :
    (to_lower : Text → Text) (t : Table) (c : Cockpit) (n : ℕ) (engine : Text) (others : List Text)
    (b : ℕ) (m : Text) (r : List Vulnerability)
    → c.trivy.running ≡ suc n
    → c.saves ≡ engine ∷ others
    → let d =
        run c
          (save_answered 0 true ∷ trivy_answered (failed (b ∷ m)) ∷ trivy_answered (good r) ∷ []) in
      (d.trivy.report ≡ some r) × (trivy_panel to_lower t d.trivy ≡ message (b ∷ m))
unfolding run step pick on_saved scan begin finish take_answer trivy_panel
overlapped-message to_lower t c n engine others b m r p q = ground arith
