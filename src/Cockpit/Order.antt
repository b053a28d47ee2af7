-- ===== src/Cockpit/Order.antt =====
-- The order of the vulnerabilities.
use mathlib.Core.List.{Perm}
use safe_dock.Common.{◌≡◌, List, true, false, Text}
use safe_dock.Common.Sort.{sort_by-perm, IsSorted}
use safe_dock.Common.Sort.Order.{sort_by-IsSorted}
use safe_dock.Inventory.{Direction, asc, desc, cell_gt}
use safe_dock.Inventory.Order.{cell_gt_asym, texts_trans, numbers_trans}
use safe_dock.Cockpit.{
  Vulnerability, Field, by_cve_id, by_severity, by_package, Table, cell_of, kept, puts_behind,
  filtered_cves,
}

module _ (to_lower : Text → Text) where
  column_trans :
      (f : Field) (a b c : Vulnerability)
      → cell_gt to_lower (cell_of f a) (cell_of f b) ≡ false
      → cell_gt to_lower (cell_of f b) (cell_of f c) ≡ false
      → cell_gt to_lower (cell_of f a) (cell_of f c) ≡ false
  column_trans by_severity a b c h k = numbers_trans to_lower _ _ _ h k
  column_trans by_cve_id a b c h k = texts_trans to_lower _ _ _ h k
  column_trans by_package a b c h k = texts_trans to_lower _ _ _ h k

  puts_behind_asym :
      (f : Field) (d : Direction) (a b : Vulnerability)
      → puts_behind to_lower f d a b ≡ true
      → puts_behind to_lower f d b a ≡ false
  unfolding puts_behind
  puts_behind_asym f asc a b h = cell_gt_asym to_lower (cell_of f a) (cell_of f b) h
  puts_behind_asym f desc a b h = cell_gt_asym to_lower (cell_of f b) (cell_of f a) h

  puts_behind_trans :
      (f : Field) (d : Direction) (a b c : Vulnerability)
      → puts_behind to_lower f d a b ≡ false
      → puts_behind to_lower f d b c ≡ false
      → puts_behind to_lower f d a c ≡ false
  unfolding puts_behind
  puts_behind_trans f asc a b c h k = column_trans f a b c h k
  puts_behind_trans f desc a b c h k = column_trans f c b a k h

  -- The table of vulnerabilities holds just those that the search and the filter leave, each as
  -- often, in the chosen order, by weight of the severity or by text.
  filtered_cves-IsSorted :
      (t : Table) (vs : List Vulnerability)
      → Perm (filtered_cves to_lower t vs) (kept to_lower t vs)
        × IsSorted (puts_behind to_lower t.sort_field t.sort_order) (filtered_cves to_lower t vs)
  unfolding filtered_cves
  filtered_cves-IsSorted t vs = (
    sort_by-perm (puts_behind to_lower t.sort_field t.sort_order) (kept to_lower t vs),
    sort_by-IsSorted (puts_behind to_lower t.sort_field t.sort_order)
        (puts_behind_asym t.sort_field t.sort_order) (puts_behind_trans t.sort_field t.sort_order)
        (kept to_lower t vs),
  )
