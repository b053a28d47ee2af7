-- ===== src/Trend.antt =====
-- `VulnTrendChart` of internal/web/frontend/src/components/ContainerDetailView.jsx: where the chart of
-- the vulnerabilities puts its points. A coordinate is a number of tenths, as `toFixed(1)` prints it;
-- ties are rounded up here, where the doubles of the program can lose one. The dates are not modelled.
pub mod Area
mod Tests
use safe_dock.Common.{
  ℕ, zero, suc, ◌+◌, ◌-◌, ◌*◌, ◌/◌, ◌%◌, max, List, [], ◌∷◌, ◌++◌, Bool, true, false, ◌&&◌, Option,
  none, some, Text, codes, ◌==◌, leb, if◌then◌else◌, length, map,
}
use safe_dock.Common.Decimal.{decimal}
use safe_dock.Fleet.{round_div}
use safe_dock.Cockpit.Scans.{Point}

-- `SERIES`, by the keys.
pub data Key : Type 0 where
  critical high medium low : Key

abbrev pub series_keys : List Key
series_keys = critical ∷ high ∷ medium ∷ low ∷ []

abbrev pub value : Key → Point → ℕ
value critical p = p.critical
value high p = p.high
value medium p = p.medium
value low p = p.low

-- `Math.max(1, …)`
unfoldable pub max_val : List Point → ℕ
max_val [] = 1
max_val (p ∷ ps) = max (max p.critical p.high) (max (max p.medium p.low) (max_val ps))

-- `px` among `n` points, and `py` under the greatest value, in tenths.
unfoldable pub px : ℕ → ℕ → ℕ
px n i = if n == 1 then 340 + 5920 / 2 else 340 + round_div (i * 5920) (n - 1)

unfoldable pub py : ℕ → ℕ → ℕ
py m v = 140 + round_div (1660 * (m - v)) m

-- The points of a series, from a place on.
unfoldable pub coordinates_from : Key → ℕ → ℕ → ℕ → List Point → List (ℕ × ℕ)
coordinates_from k m n i [] = []
coordinates_from k m n i (p ∷ ps) = (px n i, py m (value k p)) ∷ coordinates_from k m n (suc i) ps

unfoldable pub coordinates : Key → List Point → List (ℕ × ℕ)
coordinates k ps = coordinates_from k (max_val ps) (length ps) 0 ps

-- `toFixed(1)`
unfoldable pub to_fixed : ℕ → Text
to_fixed t = decimal (t / 10) ++ (b'.' ∷ decimal (t % 10))

-- `path`: M before the first point, L before the others.
unfoldable pub path_from : Text → List (ℕ × ℕ) → Text
unfolding to_fixed
path_from letter [] = []
path_from letter ((x, y) ∷ []) = letter ++ (to_fixed x ++ (b' ' ∷ to_fixed y))
path_from letter ((x, y) ∷ q ∷ qs) =
    letter ++ (to_fixed x ++ (b' ' ∷ (to_fixed y ++ (b' ' ∷ path_from (codes "L ") (q ∷ qs)))))

unfoldable pub path : Key → List Point → Text
path k ps = path_from (codes "M ") (coordinates k ps)

-- The labels of the vertical axis.
unfoldable pub ticks : ℕ → List ℕ
ticks m = map (λ i. round_div (m * (4 - i)) 4) (0 ∷ 1 ∷ 2 ∷ 3 ∷ 4 ∷ [])

-- The places that get a date: the first, the middle and the last, each once.
unfoldable pub dated : ℕ → List ℕ
dated n =
    let mid : ℕ = (n - 1) / 2 in
    let last : ℕ = n - 1 in
    0 ∷ (if mid == 0 then [] else mid ∷ [])
    ++ (if last == 0 then [] else (if last == mid then [] else last ∷ []))

-- What the component shows.
pub data Chart : Type 0 where
  loading no_history : Chart
  -- The paths, whether the points are marked, the labels, the dated places and the last values.
  drawn :
      (paths : List Text) (marked : Bool) (labels : List ℕ) (dates : List ℕ) (latest : List ℕ)
      → Chart

abbrev last_of : Point → List Point → Point
last_of p [] = p
last_of p (q ∷ qs) = last_of q qs

unfoldable pub trend_chart : Bool → List Point → Chart
unfolding path ticks dated max_val
trend_chart true [] = loading
trend_chart false [] = no_history
trend_chart busy (p ∷ ps) =
    drawn (map (λ k. path k (p ∷ ps)) series_keys) (leb (length (p ∷ ps)) 40)
      (ticks (max_val (p ∷ ps))) (dated (length (p ∷ ps)))
      (map (λ k. value k (last_of p ps)) series_keys)
