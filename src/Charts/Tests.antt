-- ===== src/Charts/Tests.antt =====
-- The charts of a small fleet.
use safe_dock.Common.{◌≡◌, refl, [], ◌∷◌}
use safe_dock.Dashboard.{Counts}
use safe_dock.Charts.{
  max_val, height, column, bar, line, columns_from, cve_chart, red, orange, yellow,
}

abbrev counts : Counts
counts = record { critical = 1; high = 7; medium = 0; low = 200 }

chart_of_counts :
    cve_chart counts
    ≡ bar 40 64 800 red ∷ bar 160 64 1064 orange ∷ line 280 ∷ bar 400 64 30400 yellow ∷ []
unfolding cve_chart columns_from column height max_val
chart_of_counts = refl
