-- ===== src/Inventory/Order.antt =====
-- The order of the table.
use mathlib.Core.List.{Perm}
use safe_dock.Common.{ℕ, ◌≡◌, refl, arith, List, [], ◌∷◌, Bool, true, false, Text}
use safe_dock.Common.Sort.{sort_by-perm, IsSorted}
use safe_dock.Common.Sort.Order.{sort_by-IsSorted}
use safe_dock.Fleet.{Container}
use safe_dock.Inventory.{
  View, Field, Direction, asc, desc, score, name, host_name, image_name, tag_pinned, non_root,
  privileged_safe, text_lt, Cell, flag, number, text, cell, cell_gt, puts_behind, filtered, sorted,
}

text_lt_asym : (s t : Text) → text_lt s t ≡ true → text_lt t s ≡ false
unfolding text_lt
text_lt_asym [] [] h = refl
text_lt_asym [] (b ∷ t) h = refl
text_lt_asym (a ∷ s) [] h = cc
text_lt_asym (a ∷ s) (b ∷ t) h = ground (arith, text_lt_asym s t)

-- "Not before" is transitive.
text_lt_trans : (s t u : Text) → text_lt s t ≡ false → text_lt t u ≡ false → text_lt s u ≡ false
unfolding text_lt
text_lt_trans s t [] h k = last s
  where
    last : (s : Text) → text_lt s [] ≡ false
    last [] = refl
    last (a ∷ s) = refl
text_lt_trans [] [] (c ∷ u) h k = cc
text_lt_trans [] (b ∷ t) (c ∷ u) h k = cc
text_lt_trans (a ∷ s) [] (c ∷ u) h k = cc
text_lt_trans (a ∷ s) (b ∷ t) (c ∷ u) h k = ground (arith, text_lt_trans s t u)

module _ (to_lower : Text → Text) where
  pub cell_gt_asym : (x y : Cell) → cell_gt to_lower x y ≡ true → cell_gt to_lower y x ≡ false
  unfolding cell_gt
  cell_gt_asym (flag a) (flag b) h = ground arith
  cell_gt_asym (number a) (number b) h = ground arith
  cell_gt_asym (text a) (text b) h = text_lt_asym (to_lower b) (to_lower a) h
  cell_gt_asym _ _ h = cc

  flags_trans :
      (x y z : Bool)
      → cell_gt to_lower (flag x) (flag y) ≡ false
      → cell_gt to_lower (flag y) (flag z) ≡ false
      → cell_gt to_lower (flag x) (flag z) ≡ false
  unfolding cell_gt
  flags_trans x y z h k = ground arith

  pub texts_trans :
      (x y z : Text)
      → cell_gt to_lower (text x) (text y) ≡ false
      → cell_gt to_lower (text y) (text z) ≡ false
      → cell_gt to_lower (text x) (text z) ≡ false
  unfolding cell_gt
  texts_trans x y z h k = text_lt_trans (to_lower z) (to_lower y) (to_lower x) k h

  pub numbers_trans :
      (x y z : ℕ)
      → cell_gt to_lower (number x) (number y) ≡ false
      → cell_gt to_lower (number y) (number z) ≡ false
      → cell_gt to_lower (number x) (number z) ≡ false
  unfolding cell_gt
  numbers_trans x y z h k = ground arith

  -- The cells of one column are of one kind.
  column_trans :
      (f : Field) (a b c : Container)
      → cell_gt to_lower (cell f a) (cell f b) ≡ false
      → cell_gt to_lower (cell f b) (cell f c) ≡ false
      → cell_gt to_lower (cell f a) (cell f c) ≡ false
  column_trans score a b c h k = numbers_trans _ _ _ h k
  column_trans name a b c h k = texts_trans _ _ _ h k
  column_trans host_name a b c h k = texts_trans _ _ _ h k
  column_trans image_name a b c h k = texts_trans _ _ _ h k
  column_trans tag_pinned a b c h k = flags_trans _ _ _ h k
  column_trans non_root a b c h k = flags_trans _ _ _ h k
  column_trans privileged_safe a b c h k = flags_trans _ _ _ h k

  puts_behind_asym :
      (f : Field) (d : Direction) (a b : Container)
      → puts_behind to_lower f d a b ≡ true
      → puts_behind to_lower f d b a ≡ false
  unfolding puts_behind
  puts_behind_asym f asc a b h = cell_gt_asym (cell f a) (cell f b) h
  puts_behind_asym f desc a b h = cell_gt_asym (cell f b) (cell f a) h

  puts_behind_trans :
      (f : Field) (d : Direction) (a b c : Container)
      → puts_behind to_lower f d a b ≡ false
      → puts_behind to_lower f d b c ≡ false
      → puts_behind to_lower f d a c ≡ false
  unfolding puts_behind
  puts_behind_trans f asc a b c h k = column_trans f a b c h k
  puts_behind_trans f desc a b c h k = column_trans f c b a k h

  -- Whatever the column and the direction, and whatever `toLowerCase` does, the table holds just
  -- the containers that the search leaves, each as often, in the order of the column.
  sorted-IsSorted :
      (v : View) (cs : List Container)
      → Perm (sorted to_lower v cs) (filtered to_lower v cs)
        × IsSorted (puts_behind to_lower v.sort_field v.sort_dir) (sorted to_lower v cs)
  unfolding sorted
  sorted-IsSorted v cs = (
    sort_by-perm (puts_behind to_lower v.sort_field v.sort_dir) (filtered to_lower v cs),
    sort_by-IsSorted (puts_behind to_lower v.sort_field v.sort_dir)
        (puts_behind_asym v.sort_field v.sort_dir) (puts_behind_trans v.sort_field v.sort_dir)
        (filtered to_lower v cs),
  )
