-- ===== src/Compliance/Rows.antt =====
-- The cards of ComplianceView.jsx and their order.
use mathlib.Core.List.{Perm}
use mathlib.Core.List.Perm
use safe_dock.Common.{◌+◌, ◌-◌, ◌*◌, ◌≤◌, ◌≡◌, arith, List, [], ◌∷◌, map, Text, All}
use safe_dock.Common.Sort.{sort_by-perm, IsSorted}
use safe_dock.Common.Sort.Order.{sort_by-IsSorted, All-sort_by}
use safe_dock.Dashboard.Figures.{percent-le}
use safe_dock.Fleet.{RawContainer, Container, process, score_of}
use safe_dock.Fleet.Summary.{round_div-le}
use safe_dock.Compliance.{
  Group, fresh, tag_list, count_in, put, count_tag, count_tags, count_all, by_tag, object_values,
  comes_behind, average, better, rows, card_of,
}

-- The cards show every group once, the worst average first.
rows-IsSorted : (cs : List Container) → Perm (rows cs) (by_tag cs) × IsSorted better (rows cs)
unfolding rows object_values
rows-IsSorted cs = (
  Perm.trans (sort_by-perm better _) (sort_by-perm comes_behind (by_tag cs)),
  sort_by-IsSorted better (λ a b h. ground arith) (λ a b c h k. ground arith) _,
)

-- The counters of a group fit together, for scores of 100 at most.
pub record IsSensible (g : Group) : Type 0 where
  pub count_pos : 1 ≤ g.count
  pub risk_le : g.at_risk ≤ g.count
  pub scanned_le : g.scanned ≤ g.count
  pub sum_le : g.score_sum ≤ 100 * g.count

module _ (c : Container) (low : c.score ≤ 100) where
  count_in-fresh : (t : Text) → IsSensible (count_in c (fresh t))
  unfolding count_in
  count_in-fresh t = ground arith

  count_in-IsSensible : (g : Group) → IsSensible g → IsSensible (count_in c g)
  unfolding count_in
  count_in-IsSensible g h = ground arith

  put-IsSensible : (t : Text) (gs : List Group) → All IsSensible gs → All IsSensible (put c t gs)
  unfolding put
  put-IsSensible t [] h = (count_in-fresh t, tt)
  put-IsSensible t (g ∷ gs) (p, h) = ground (arith, count_in-IsSensible g p, put-IsSensible t gs h)

  count_tags-IsSensible :
      (ts : List Text) (gs : List Group) → All IsSensible gs → All IsSensible (count_tags c ts gs)
  unfolding count_tags count_tag
  count_tags-IsSensible [] gs h = h
  count_tags-IsSensible (t ∷ ts) gs h =
      count_tags-IsSensible ts (count_tag c t gs) (ground (arith, put-IsSensible t gs h))

count_all-IsSensible :
    (cs : List Container) (gs : List Group)
    → All (λ c. c.score ≤ 100) cs
    → All IsSensible gs
    → All IsSensible (count_all cs gs)
unfolding count_all
count_all-IsSensible [] gs low h = h
count_all-IsSensible (c ∷ cs) gs (p, low) h =
    count_all-IsSensible cs _ low (count_tags-IsSensible c p (tag_list c) gs h)

process-le : (rs : List RawContainer) → All (λ c. c.score ≤ 100) (map process rs)
unfolding process score_of
process-le [] = tt
process-le (r ∷ rs) = (ground arith, process-le rs)

-- What a card shows stays within its frame.
pub record IsShown (g : Group) : Type 0 where
  pub average_le : average g ≤ 100
  pub percent_le : (card_of g).secure_pct ≤ 100
  pub pending_eq : (card_of g).pending + g.scanned ≡ g.count
  pub some_carrier : 1 ≤ g.count

shown : (g : Group) → IsSensible g → IsShown g
unfolding card_of
shown g h = record {
  average_le = round_div-le g.score_sum g.count 100 (omega arith) h.sum_le;
  percent_le = percent-le (g.count - g.at_risk) g.count (omega arith) (omega arith);
  pending_eq = omega arith;
  some_carrier = h.count_pos;
}

All-IsShown : (gs : List Group) → All IsSensible gs → All IsShown gs
All-IsShown [] h = tt
All-IsShown (g ∷ gs) (p, h) = (shown g p, All-IsShown gs h)

-- No card divides by zero or leaves its scale: whatever the server has sent, each card stands for a
-- container at least, its average and its bar are between 0 and 100, and the containers it calls
-- pending and those that have been scanned are all of them.
rows-IsShown : (rs : List RawContainer) → All IsShown (rows (map process rs))
unfolding rows object_values by_tag
rows-IsShown rs =
    let groups = All-IsShown _ (count_all-IsSensible (map process rs) [] (process-le rs) tt) in
    All-sort_by better IsShown _ (All-sort_by comes_behind IsShown _ groups)
