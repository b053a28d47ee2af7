-- ===== src/Fleet/Summary.antt =====
-- The figures of the whole fleet.
use mathlib.Core.List.{Perm}
use mathlib.Core.Path.{subst}
use native.Mathlib.Nat.{div-lt_iff_lt-mul}
use safe_dock.Common.{
  ℕ, ◌+◌, ◌-◌, ◌*◌, ◌≤◌, ◌<◌, ◌≡◌, refl, sym, arith, Bool, List, [], ◌∷◌, if◌then◌else◌, length,
  total, ltb, leb, keep,
}
use safe_dock.Common.Perms.{total-perm}
use safe_dock.Fleet.{
  Container, Stats, Tally, tally_step, tally, add_cves, cve_count, stats_of, round_div,
}
use safe_dock.Grades.{grade_from_score}

-- 1 for a container below the mark of 75.
abbrev pub at_risk : Container → ℕ
at_risk c = if ltb c.score 75 then 1 else 0

abbrev pub updatable : Container → ℕ
updatable c = if c.update_available then 1 else 0

tally_lem :
    (t : Tally) (cs : List Container)
    → tally t cs ≡ record {
      sum_score = t.sum_score + total (λ c. c.score) cs;
      crit_count = t.crit_count + total at_risk cs;
      updates_avail = t.updates_avail + total updatable cs;
    }
unfolding tally tally_step
tally_lem t [] = ground arith
tally_lem t (c ∷ cs) = ground (arith, tally_lem (tally_step t c) cs)

add_cves_lem : (n : ℕ) (cs : List Container) → add_cves n cs ≡ n + total cve_count cs
unfolding add_cves
add_cves_lem n [] = omega arith
add_cves_lem n (c ∷ cs) =
    omega (arith, add_cves_lem (n + c.cve_critical + c.cve_high + c.cve_medium + c.cve_low) cs)

-- The figures of a fleet that is not empty, by sums over it.
abbrev pub summary : List Container → Stats
summary cs = record {
  total = length cs;
  secure = length cs - total at_risk cs;
  warnings = total at_risk cs;
  cves = total cve_count cs;
  updates_available = total updatable cs;
  global_grade = grade_from_score (round_div (total (λ c. c.score) cs) (length cs));
  global_score = round_div (total (λ c. c.score) cs) (length cs);
}

pub stats_of-cons : (c : Container) (cs : List Container) → stats_of (c ∷ cs) ≡ summary (c ∷ cs)
unfolding stats_of
stats_of-cons c cs = ground (
  arith,
  tally_lem (tally_step (record { sum_score = 0; crit_count = 0; updates_avail = 0 }) c) cs,
  add_cves_lem (0 + c.cve_critical + c.cve_high + c.cve_medium + c.cve_low) cs,
)

at_risk-le-length : (cs : List Container) → total at_risk cs ≤ length cs
at_risk-le-length [] = omega arith
at_risk-le-length (c ∷ cs) = ground (arith, at_risk-le-length cs)

-- `activeFilter === 'secure'` and `'warning'` of the dashboard.
abbrev pub is_secure : Container → Bool
is_secure c = leb 75 c.score

abbrev pub is_warning : Container → Bool
is_warning c = ltb c.score 75

length-keep_warning : (cs : List Container) → length (keep is_warning cs) ≡ total at_risk cs
length-keep_warning [] = refl
length-keep_warning (c ∷ cs) = ground (arith, length-keep_warning cs)

length-keep_secure :
    (cs : List Container) → length (keep is_secure cs) + total at_risk cs ≡ length cs
length-keep_secure [] = refl
length-keep_secure (c ∷ cs) = ground (arith, length-keep_secure cs)

summary-keep :
    (cs : List Container)
    → ((summary cs).secure + (summary cs).warnings ≡ (summary cs).total)
      × (length (keep is_secure cs) ≡ (summary cs).secure)
      × (length (keep is_warning cs) ≡ (summary cs).warnings)
summary-keep cs = omega (arith, at_risk-le-length cs, length-keep_secure cs, length-keep_warning cs)

-- The tiles of the dashboard agree with its filters: the sound containers and those with a warning
-- are together all of them, and each tile shows the number of cards that its filter leaves.
pub stats_of-keep :
    (cs : List Container)
    → ((stats_of cs).secure + (stats_of cs).warnings ≡ (stats_of cs).total)
      × ((stats_of cs).total ≡ length cs)
      × (length (keep is_secure cs) ≡ (stats_of cs).secure)
      × (length (keep is_warning cs) ≡ (stats_of cs).warnings)
unfolding stats_of
stats_of-keep [] = (refl, refl, refl, refl)
stats_of-keep (c ∷ cs) =
    let (parts, sound, warned) = summary-keep (c ∷ cs) in
    subst Keeps (sym (stats_of-cons c cs)) (parts, refl, sound, warned)
  where
    Keeps : Stats → Type 0
    Keeps s =
        (s.secure + s.warnings ≡ s.total)
        × (s.total ≡ length (c ∷ cs))
        × (length (keep is_secure (c ∷ cs)) ≡ s.secure)
        × (length (keep is_warning (c ∷ cs)) ≡ s.warnings)

pub round_div-le : (sum n hi : ℕ) → 0 < n → sum ≤ hi * n → round_div sum n ≤ hi
round_div-le sum n hi p h = omega (
  arith,
  (div-lt_iff_lt-mul {k = 2 * n} {x = 2 * sum + n} {y = hi + 1} (omega arith)).1 (grind arith),
)

stats_of-eq :
    (cs ds : List Container)
    → length cs ≡ length ds
    → ((f : Container → ℕ) → total f cs ≡ total f ds)
    → stats_of cs ≡ stats_of ds
stats_of-eq [] [] n h = refl
stats_of-eq [] (_ ∷ _) n h = absurd (omega arith)
stats_of-eq (_ ∷ _) [] n h = absurd (omega arith)
stats_of-eq (c ∷ cs) (d ∷ ds) n h = rw (
  stats_of-cons c cs,
  stats_of-cons d ds,
  n,
  h at_risk,
  h updatable,
  h cve_count,
  h (λ c. c.score),
)

-- The figures do not depend on the order in which the server lists the containers.
stats_of-perm : (cs ds : List Container) → Perm cs ds → stats_of cs ≡ stats_of ds
stats_of-perm cs ds p = stats_of-eq cs ds lengths (λ f. total-perm f p)
  where
    total-one : (es : List Container) → total (λ c. 1) es ≡ length es
    total-one [] = refl
    total-one (e ∷ es) = omega (arith, total-one es)

    lengths : length cs ≡ length ds
    lengths = omega (arith, total-one cs, total-one ds, total-perm (λ (c : Container). 1) p)
