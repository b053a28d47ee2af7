-- ===== src/Trend/Area.antt =====
-- The points of the chart lie in its drawing area, in the order of the scans and of the values.
use safe_dock.Common.{
  ◌≡◌, refl, arith, ℕ, zero, suc, ◌+◌, ◌-◌, ◌*◌, ◌≤◌, ◌<◌, List, [], ◌∷◌, length, All,
}
use native.Mathlib.Nat.{le-div_iff_mul-le, div-mul-le_self}
use safe_dock.Fleet.{round_div}
use safe_dock.Fleet.Summary.{round_div-le}
use safe_dock.Cockpit.Scans.{Point}
use safe_dock.Trend.{
  Key, critical, high, medium, low, value, max_val, px, py, coordinates_from, coordinates,
}

-- Between the margins, in tenths.
abbrev pub InArea : ℕ × ℕ → Type 0
InArea (x, y) = (340 ≤ x) × (x ≤ 6260) × (140 ≤ y) × (y ≤ 1800)

max_val_pos : (ps : List Point) → 0 < max_val ps
unfolding max_val
max_val_pos [] = omega arith
max_val_pos (p ∷ ps) = omega (arith, max_val_pos ps)

-- No value is above the greatest one.
value-le : (k : Key) (p : Point) (ps : List Point) → value k p ≤ max_val (p ∷ ps)
unfolding max_val
value-le critical p ps = omega arith
value-le high p ps = omega arith
value-le medium p ps = omega arith
value-le low p ps = omega arith

max_val-tail : (p : Point) (ps : List Point) → max_val ps ≤ max_val (p ∷ ps)
unfolding max_val
max_val-tail p ps = omega arith

round_div_mono : (a b n : ℕ) → 0 < n → a ≤ b → round_div a n ≤ round_div b n
round_div_mono a b n h le =
    (le-div_iff_mul-le (omega arith)).1 (omega (arith, div-mul-le_self (2 * a + n) (2 * n)))

py_bounds : (m v : ℕ) → 0 < m → (140 ≤ py m v) × (py m v ≤ 1800)
unfolding py
py_bounds m v h = omega (arith, round_div-le (1660 * (m - v)) m 1660 h (omega arith))

-- A greater value is not drawn lower.
py_anti : (m v w : ℕ) → 0 < m → v ≤ w → py m w ≤ py m v
unfolding py
py_anti m v w h le =
    omega (arith, round_div_mono (1660 * (m - w)) (1660 * (m - v)) m h (omega arith))

px_many : (n i : ℕ) → 1 < n → px n i ≡ 340 + round_div (i * 5920) (n - 1)
unfolding px
px_many n i h = ground arith

px_one : (i : ℕ) → px 1 i ≡ 3300
unfolding px
px_one i = refl

scaled-le : (i n : ℕ) → i < n → i * 5920 ≤ 5920 * (n - 1)
scaled-le i n h = omega arith

px_bounds : (n i : ℕ) → i < n → (340 ≤ px n i) × (px n i ≤ 6260)
px_bounds zero i h = absurd (omega arith)
px_bounds (suc zero) i h = omega (arith, px_one i)
px_bounds (suc (suc n)) i h = omega (
  arith,
  px_many (suc (suc n)) i (omega arith),
  round_div-le (i * 5920) (suc (suc n) - 1) 5920 (omega arith) (omega arith),
)

px_mono : (n i j : ℕ) → 0 < n → i ≤ j → px n i ≤ px n j
px_mono zero i j h le = absurd (omega arith)
px_mono (suc zero) i j h le = omega (arith, px_one i, px_one j)
px_mono (suc (suc n)) i j h le = omega (
  arith,
  px_many (suc (suc n)) i (omega arith),
  px_many (suc (suc n)) j (omega arith),
  round_div_mono (i * 5920) (j * 5920) (suc (suc n) - 1) (omega arith) (omega arith),
)

-- From left to right.
abbrev pub Ascending : List (ℕ × ℕ) → Type 0
Ascending [] = Unit
Ascending ((x, y) ∷ []) = Unit
Ascending ((x, y) ∷ (x', y') ∷ qs) = (x ≤ x') × Ascending ((x', y') ∷ qs)

coordinates_from-InArea :
    (k : Key) (m n i : ℕ) (ps : List Point)
    → 0 < m
    → i + length ps ≤ n
    → All InArea (coordinates_from k m n i ps)
unfolding coordinates_from
coordinates_from-InArea k m n i [] h le = tt
coordinates_from-InArea k m n i (p ∷ ps) h le =
    let x = px_bounds n i (omega arith) in
    let y = py_bounds m (value k p) h in
    ((x.0, x.1, y.0, y.1), coordinates_from-InArea k m n (suc i) ps h (omega arith))

coordinates_from-Ascending :
    (k : Key) (m n i : ℕ) (ps : List Point)
    → i + length ps ≤ n
    → Ascending (coordinates_from k m n i ps)
unfolding coordinates_from
coordinates_from-Ascending k m n i [] le = tt
coordinates_from-Ascending k m n i (p ∷ []) le = tt
coordinates_from-Ascending k m n i (p ∷ q ∷ ps) le = (
  px_mono n i (suc i) (omega arith) (omega arith),
  coordinates_from-Ascending k m n (suc i) (q ∷ ps) (omega arith),
)

values-le : (k : Key) (m : ℕ) (ps : List Point) → max_val ps ≤ m → All (λ p. value k p ≤ m) ps
values-le k m [] h = tt
values-le k m (p ∷ ps) h =
    (omega (arith, value-le k p ps), values-le k m ps (omega (arith, max_val-tail p ps)))

-- Whatever the history, every point of every series lies between the margins of the chart, the points
-- run from left to right in the order of the scans, no value is above the greatest one, by which the
-- height is scaled, and of two values the greater is not drawn lower.
pub coordinates-InArea :
    (k : Key) (ps : List Point)
    → All InArea (coordinates k ps)
      × Ascending (coordinates k ps)
      × All (λ p. value k p ≤ max_val ps) ps
      × ((v w : ℕ) → v ≤ w → py (max_val ps) w ≤ py (max_val ps) v)
unfolding coordinates
coordinates-InArea k ps = (
  coordinates_from-InArea k (max_val ps) (length ps) 0 ps (max_val_pos ps) (omega arith),
  coordinates_from-Ascending k (max_val ps) (length ps) 0 ps (omega arith),
  values-le k (max_val ps) ps (omega arith),
  λ v w. py_anti (max_val ps) v w (max_val_pos ps),
)
