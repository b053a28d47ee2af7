-- ===== src/Dashboard/Figures.antt =====
-- The figures that the dashboard shows beside the list of actions.
use native.Mathlib.Nat.{div-lt_iff_lt-mul}
use safe_dock.Common.{ℕ, ◌+◌, ◌*◌, ◌/◌, ◌≤◌, ◌<◌, ◌≡◌, refl, ap, arith, List, [], ◌∷◌, total}
use safe_dock.Fleet.{Container, Stats, stats_of, cve_count}
use safe_dock.Fleet.Summary.{stats_of-cons, stats_of-keep}
use safe_dock.Dashboard.{Counts, count_cves, cve_counts, cve_total, secure_pct}

count_cves-total :
    (n : Counts) (cs : List Container)
    → cve_total (count_cves n cs) ≡ cve_total n + total cve_count cs
unfolding count_cves
count_cves-total n [] = omega arith
count_cves-total n (c ∷ cs) = omega (
  arith,
  count_cves-total
      (record {
        critical = n.critical + c.cve_critical;
        high = n.high + c.cve_high;
        medium = n.medium + c.cve_medium;
        low = n.low + c.cve_low;
      })
      cs,
)

pub stats_of-cves : (cs : List Container) → (stats_of cs).cves ≡ total cve_count cs
unfolding stats_of
stats_of-cves [] = refl
stats_of-cves (c ∷ cs) = ap (λ (s : Stats). s.cves) (stats_of-cons c cs)

pub percent-le : (k n : ℕ) → 0 < n → k ≤ n → (2 * k * 100 + n) / (2 * n) ≤ 100
percent-le k n p h = omega (
  arith,
  (div-lt_iff_lt-mul {k = 2 * n} {x = 2 * k * 100 + n} {y = 101} (omega arith)).1 (omega arith),
)

-- The three places that count agree: the four severities of the chart add up to the number of CVEs
-- of the statistics, and the bar of sound containers never exceeds its frame.
cve_counts-stats_of :
    (cs : List Container)
    → (cve_total (cve_counts cs) ≡ (stats_of cs).cves) × (secure_pct (stats_of cs) ≤ 100)
unfolding cve_counts secure_pct
cve_counts-stats_of cs =
    let (parts, _, _, _) = stats_of-keep cs in
    (
      omega (
        arith,
        count_cves-total (record { critical = 0; high = 0; medium = 0; low = 0 }) cs,
        stats_of-cves cs,
      ),
      ground (arith, percent-le (stats_of cs).secure (stats_of cs).total),
    )
