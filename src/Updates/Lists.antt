-- ===== src/Updates/Lists.antt =====
-- The two lists of the page of the actions, against the fleet and the tiles of the dashboard.
use mathlib.Core.List.{Perm, perm_middle, perm-append_right_iff}
use mathlib.Core.List.Perm
use safe_dock.Common.{
  ◌≡◌, refl, ap, arith, ℕ, ◌≤◌, List, [], ◌∷◌, ◌++◌, Bool, true, false, not, ◌&&◌, ltb, leb,
  if◌then◌else◌, keep, length, total,
}
use safe_dock.Fleet.{Container, Stats, stats_of}
use safe_dock.Fleet.Summary.{stats_of-cons, updatable, at_risk}
use safe_dock.Updates.{updates_pending, vulnerable}

-- The containers that stand in neither list.
abbrev pub untold : List Container → List Container
untold cs = keep (λ c. leb 75 c.score && not c.update_available) cs

-- Each container goes into one list.
placed :
    (pending low high : Bool) (c : Container) (us vs ws : List Container)
    → high ≡ not low
    → Perm
        (((if pending then c ∷ us else us) ++ (if low && not pending then c ∷ vs else vs))
          ++ (if high && not pending then c ∷ ws else ws))
        (c ∷ ((us ++ vs) ++ ws))
placed true true high c us vs ws e = rw e (Perm.refl _)
placed true false high c us vs ws e = rw e (Perm.refl _)
placed false true high c us vs ws e = rw e ((perm-append_right_iff ws).1 (perm_middle us vs))
placed false false high c us vs ws e = rw e (perm_middle (us ++ vs) ws)

high-not : (s : ℕ) → leb 75 s ≡ not (ltb s 75)
high-not s = ground arith

lists-perm : (cs : List Container) → Perm ((updates_pending cs ++ vulnerable cs) ++ untold cs) cs
unfolding updates_pending vulnerable
lists-perm [] = Perm.refl []
lists-perm (c ∷ cs) =
    Perm.trans
      (placed c.update_available (ltb c.score 75) (leb 75 c.score) c (updates_pending cs)
        (vulnerable cs) (untold cs) (high-not c.score))
      (Perm.cons c (lists-perm cs))

length-updates_pending : (cs : List Container) → length (updates_pending cs) ≡ total updatable cs
unfolding updates_pending
length-updates_pending [] = refl
length-updates_pending (c ∷ cs) = ground (arith, length-updates_pending cs)

length-vulnerable : (cs : List Container) → length (vulnerable cs) ≤ total at_risk cs
unfolding vulnerable
length-vulnerable [] = omega arith
length-vulnerable (c ∷ cs) = ground (arith, length-vulnerable cs)

tiles_lem :
    (cs : List Container)
    → ((stats_of cs).updates_available ≡ total updatable cs)
      × ((stats_of cs).warnings ≡ total at_risk cs)
unfolding stats_of
tiles_lem [] = (refl, refl)
tiles_lem (c ∷ cs) = (
  ap (λ (s : Stats). s.updates_available) (stats_of-cons c cs),
  ap (λ (s : Stats). s.warnings) (stats_of-cons c cs),
)

-- The page of the actions agrees with the dashboard: every container stands in exactly one of the two
-- lists or has a score of 75 at least and no update; the first list is as long as the tile of the
-- updates says, and the second no longer than the tile of the warnings.
pub lists-stats_of :
    (cs : List Container)
    → Perm ((updates_pending cs ++ vulnerable cs) ++ untold cs) cs
      × (length (updates_pending cs) ≡ (stats_of cs).updates_available)
      × (length (vulnerable cs) ≤ (stats_of cs).warnings)
lists-stats_of cs =
    let tiles = tiles_lem cs in
    (lists-perm cs, omega (arith, length-updates_pending cs), omega (arith, length-vulnerable cs))
