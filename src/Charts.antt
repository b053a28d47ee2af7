-- ===== src/Charts.antt =====
-- The charts of internal/web/frontend/src/components/DashboardView.jsx: `SeverityBar` and `CveChart`.
-- A width or a height is a fraction, given by its numerator over the total or the greatest value; the
-- list of the audits, with its column of vulnerabilities.
pub mod Areas
mod Tests
use safe_dock.Common.{
  ℕ, suc, ◌+◌, ◌-◌, ◌*◌, ◌/◌, max, List, [], ◌∷◌, ◌++◌, map, Bool, true, false, ◌||◌, Option, none,
  some, Text, codes, text_eq, ltb, ◌==◌, if◌then◌else◌, keep,
}
use safe_dock.Common.Decimal.{decimal}
use safe_dock.Fleet.{round_div}
use safe_dock.Dashboard.{Counts, cve_total}

pub data Colour : Type 0 where
  red orange amber yellow : Colour

-- The values of `segs` and of `bars`.
abbrev pub values : Counts → List (Colour × ℕ)
values n = (red, n.critical) ∷ (orange, n.high) ∷ (amber, n.medium) ∷ (yellow, n.low) ∷ []

pub data Bar : Type 0 where
  -- No vulnerability: one segment over the whole width.
  whole : Bar
  -- The segments, with a hundred times the share of each, over the total.
  segments : List (Colour × ℕ) → Bar

abbrev pub is_drawn : Colour × ℕ → Bool
is_drawn (c, v) = ltb 0 v

abbrev pub percent : Colour × ℕ → Colour × ℕ
percent (c, v) = (c, v * 100)

-- `SeverityBar`
unfoldable pub severity_bar : Counts → ℕ → Bar
severity_bar n total =
    if total == 0 then whole else segments (map percent (keep is_drawn (values n)))

-- `maxVal`
unfoldable pub max_val : Counts → ℕ
max_val n = max (max n.critical n.high) (max (max n.medium n.low) 5)

-- `chartH`, `paddingBottom` and `paddingTop`
abbrev pub chart_h : ℕ
chart_h = 200

abbrev pub padding_bottom : ℕ
padding_bottom = 28

abbrev pub padding_top : ℕ
padding_top = 20

abbrev pub draw_h : ℕ
draw_h = chart_h - padding_bottom - padding_top

-- `h` of a bar, over the greatest value.
unfoldable pub height : ℕ → ℕ → ℕ
height m v = max (v * draw_h) (if ltb 0 v then 4 * m else 0)

pub data Column : Type 0 where
  -- A bar: its left edge, its width, its height over the greatest value, and its colour.
  bar : (x width : ℕ) (h : ℕ) → Colour → Column
  -- The faint line in place of a bar of no height.
  line : (x : ℕ) → Column

unfoldable pub column : ℕ → ℕ → Colour × ℕ → Column
unfolding height
column m idx (c, v) =
    let x : ℕ = 40 + idx * 120 in if ltb 0 (height m v) then bar x 64 (height m v) c else line x

unfoldable pub columns_from : ℕ → ℕ → List (Colour × ℕ) → List Column
columns_from m idx [] = []
columns_from m idx (b ∷ bs) = column m idx b ∷ columns_from m (suc idx) bs

-- The bars of `CveChart`.
unfoldable pub cve_chart : Counts → List Column
cve_chart n = columns_from (max_val n) 0 (values n)

-- The labels of the lines of its grid.
unfoldable pub grid_labels : Counts → List ℕ
unfolding max_val
grid_labels n = map (λ i. round_div (i * max_val n) 3) (1 ∷ 2 ∷ 3 ∷ [])

-- What is read of an item of `auditLogs`.
pub record AuditLog : Type 0 where
  pub image_ref : Text
  pub status : Text
  pub counts : Counts

-- The cells of the image and of the vulnerabilities.
unfoldable pub log_cells : AuditLog → Text × Text
log_cells l = (
  if text_eq l.image_ref [] then codes "-" else l.image_ref,
  if text_eq l.status (codes "SUCCESS") || text_eq l.status (codes "CLEAN")
      then codes "—"
      else decimal l.counts.critical
        ++ (b'/' ∷ (decimal l.counts.high ++ (b'/' ∷ decimal l.counts.medium))),
)
