-- ===== src/Report/Laws.antt =====
-- What the report as a whole promises.
use safe_dock.Common.{
  ℕ, ◌+◌, ◌≡◌, sym, arith, List, [], ◌∷◌, ◌++◌, map, Bool, true, false, none, some, Text, codes,
  if◌then◌else◌, All, All-append, total, ltb,
}
use safe_dock.Common.Decimal.{decimal, IsDigit, decimal-IsDigit}
use safe_dock.Fleet.{Container, stats_of, cve_count, leak_count}
use safe_dock.Fleet.Summary.{stats_of-keep}
use safe_dock.Dashboard.Figures.{stats_of-cves}
use safe_dock.Report.{
  esc, Totals, add_totals, totals_from, totals_of, cve_total, shown_total, shown_secure, letter,
  cve_cell, row_of, report_rows,
}
use safe_dock.Report.Escaping.{IsInert, esc-IsInert}

abbrev AllInert : Text → Type 0
AllInert = All IsInert

digits-IsInert : (s : Text) → All IsDigit s → AllInert s
digits-IsInert [] h = tt
digits-IsInert (c ∷ s) h = (omega arith, digits-IsInert s h.1)

decimal-IsInert : (n : ℕ) → AllInert (decimal n)
decimal-IsInert n = digits-IsInert (decimal n) (decimal-IsDigit n)

if-IsInert : (b : Bool) (s t : Text) → AllInert s → AllInert t → AllInert (if b then s else t)
if-IsInert true s t h k = h
if-IsInert false s t h k = k

cve_cell-IsInert : (c : Container) → AllInert (cve_cell c)
unfolding cve_cell
cve_cell-IsInert c =
    let step = λ (s : Text) (n : ℕ) (h : AllInert s).
      All-append IsInert (s ++ codes " / ") (decimal n)
        (All-append IsInert s (codes " / ") h (omega arith)) (decimal-IsInert n) in
    if-IsInert c.scanned _ _
      (step _ c.cve_low (step _ c.cve_medium (step _ c.cve_high (decimal-IsInert c.cve_critical))))
      (omega arith)

row_of-IsInert : (c : Container) → All AllInert (row_of c)
unfolding row_of
row_of-IsInert c =
    let image =
      All-append IsInert (esc c.image_name ++ codes ":") (esc c.image_tag)
        (All-append IsInert (esc c.image_name) (codes ":") (esc-IsInert c.image_name) (omega arith))
        (esc-IsInert c.image_tag) in
    let leaks =
      if-IsInert (ltb 0 (leak_count c.secret_leaks)) (decimal (leak_count c.secret_leaks))
        (codes "ok") (decimal-IsInert (leak_count c.secret_leaks)) (omega arith) in
    let root = if-IsInert c.is_root (codes "⚠ root") (codes "ok") (omega arith) (omega arith) in
    let privileged =
      if-IsInert c.is_privileged (codes "⚠ priv.") (codes "ok") (omega arith) (omega arith) in
    (
      esc-IsInert c.name,
      (
        esc-IsInert c.host_name,
        (
          image,
          (
            esc-IsInert (letter c.grade),
            (
              esc-IsInert (decimal c.score),
              (cve_cell-IsInert c, (root, (privileged, (leaks, tt)))),
            ),
          ),
        ),
      ),
    )

map-row_of-IsInert : (cs : List Container) → All (All AllInert) (map row_of cs)
map-row_of-IsInert [] = tt
map-row_of-IsInert (c ∷ cs) = (row_of-IsInert c, map-row_of-IsInert cs)

-- Whatever names the server sends, no cell of the table holds a character that opens or closes a
-- tag or an attribute.
report_rows-IsInert : (cs : List Container) → All (All AllInert) (report_rows cs)
unfolding report_rows
report_rows-IsInert cs = map-row_of-IsInert _

totals_from-total :
    (t : Totals) (cs : List Container)
    → cve_total (totals_from t cs) ≡ cve_total t + total cve_count cs
unfolding totals_from add_totals
totals_from-total t [] = omega arith
totals_from-total t (c ∷ cs) = omega (arith, totals_from-total (add_totals t c) cs)

-- The report and the dashboard show the same figures of the same fleet, and the report shows the
-- same ones whether or not it is given the statistics.
report-eq-stats_of :
    (cs : List Container)
    → (cve_total (totals_of cs) ≡ (stats_of cs).cves)
      × (shown_total (some (stats_of cs)) cs ≡ shown_total none cs)
      × (shown_secure (some (stats_of cs)) cs ≡ shown_secure none cs)
unfolding totals_of shown_total shown_secure
report-eq-stats_of cs =
    let (_, all, sound, _) = stats_of-keep cs in
    (
      omega (
        arith,
        totals_from-total (record { critical = 0; high = 0; medium = 0; low = 0; scanned = 0 }) cs,
        stats_of-cves cs,
      ),
      all,
      sym sound,
    )
