-- ===== src/Audit/Tests.antt =====
-- A run of the audit of an image.
use safe_dock.Common.{◌≡◌, ◌+◌, refl, true, List, [], ◌∷◌, some, keep, Text, codes}
use safe_dock.Common.Flight.{pick}
use safe_dock.PasswordPolicy.{is_space}
use safe_dock.Trim.{trim, trim_left, trim_right}
use safe_dock.Audit.{
  Results, Audit, initial, Event, quick_filled, submitted, replied, reported, step, submit,
  is_disabled, finish, on_reply, passes, Panel, results_panel, screen,
}
use safe_dock.Audit.Report.{nothing_seen, run, run-panel}

abbrev spotless : Results
spotless = record { vulnerabilities = []; critical = 0; high = 0; medium = 0; low = 0 }

abbrev scan : List Event
scan =
    quick_filled (codes "nginx") (codes "latest")
    ∷ submitted
    ∷ replied 0 (reported (some spotless))
    ∷ []

abbrev scanned : Audit
scanned = (run initial nothing_seen scan).0

abbrev shown : Panel
shown = record {
  image = codes "nginx";
  tag = codes "latest";
  total = 0;
  clean = true;
  entries = [];
}

run-panel_example :
    let (a, s) = run initial nothing_seen scan in
    (q : Text × Text) × (r : Results) × (s.report ≡ some ((s.sent, q), some r))
    × (keep (passes a.filter) r.vulnerabilities ≡ shown.entries)
    × (r.critical + r.high + r.medium + r.low ≡ shown.total)
unfolding run step submit is_disabled on_reply finish pick screen results_panel trim trim_left
    trim_right is_space
run-panel_example = run-panel scan shown refl
