-- ===== src/Trend/Tests.antt =====
-- A chart of two scans.
use safe_dock.Common.{◌≡◌, refl, ◌≤◌, ℕ, List, [], ◌∷◌, codes, All}
use safe_dock.Common.Decimal.{decimal}
use safe_dock.Cockpit.Scans.{Point}
use safe_dock.Trend.{high, value, max_val, px, py, coordinates_from, coordinates, path_from, path}
use safe_dock.Trend.Area.{InArea, Ascending, coordinates-InArea}

abbrev scans : List Point
scans =
    record { scanned_at = codes "a"; scanner = []; critical = 0; high = 3; medium = 8; low = 1 }
    ∷ record { scanned_at = codes "b"; scanner = []; critical = 1; high = 8; medium = 2; low = 0 }
    ∷ []

path_of_high : path high scans ≡ codes "M 34.0 117.8 L 626.0 14.0"
unfolding path path_from coordinates coordinates_from px py max_val decimal
path_of_high = refl

coordinates-InArea_example :
    All InArea (coordinates high scans)
    × Ascending (coordinates high scans)
    × All (λ p. value high p ≤ max_val scans) scans
    × ((v w : ℕ) → v ≤ w → py (max_val scans) w ≤ py (max_val scans) v)
coordinates-InArea_example = coordinates-InArea high scans
