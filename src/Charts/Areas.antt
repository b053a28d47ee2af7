-- ===== src/Charts/Areas.antt =====
-- What the bars show, and that they have room.
use safe_dock.Common.{◌≡◌, ◌⊎◌, ℕ, ◌+◌, ◌*◌, ◌≤◌, ◌<◌, List, [], ◌∷◌, total}
use safe_dock.Charts.{Colour, Bar, whole, segments, draw_h, Column, bar, line}

-- The widths of a bar, over the total: an empty fleet fills it.
abbrev pub widths : ℕ → Bar → ℕ
widths n whole = 100 * n
widths n (segments ss) = total (λ s. s.1) ss

-- The room of a column, right of the one before, and that it is a bar, of its own colour and of the
-- height of its share, just for a value above 0.
abbrev pub HasRoom : ℕ → ℕ → Colour × ℕ → Column → Type 0
HasRoom m left (c, v) (bar x w h c') =
    (c' ≡ c)
    × (0 < v)
    × (4 * m ≤ h)
    × (v * draw_h ≤ h)
    × ((h ≡ v * draw_h) ⊎ (h ≡ 4 * m))
    × (h ≤ draw_h * m)
    × (left ≤ x)
    × (w ≡ 64)
    × (x + w ≤ 504)
HasRoom m left (c, v) (line x) = (v ≡ 0) × (left ≤ x) × (x + 64 ≤ 504)

abbrev right_of : Column → ℕ
right_of (bar x w h c) = x + w
right_of (line x) = x + 64

abbrev pub HaveRoom : ℕ → ℕ → List (Colour × ℕ) → List Column → Type 0
HaveRoom m left [] [] = Unit
HaveRoom m left (b ∷ bs) (k ∷ ks) = HasRoom m left b k × HaveRoom m (right_of k) bs ks
HaveRoom m left _ _ = ⊥
