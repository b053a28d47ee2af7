-- ===== src/Compliance/Groups.antt =====
-- What the groups of ComplianceView.jsx count.
use safe_dock.Common.{
  ℕ, ◌+◌, ◌≡◌, refl, sym, ◌∙◌, ap, arith, List, [], ◌∷◌, ◌++◌, false, Option, none, some, Text,
  text_eq, text_eq_iff, text_eq_refl, ◌==◌, if◌then◌else◌, length, find, total, Bool-cases, inl,
  inr,
}
use safe_dock.Fleet.{Container}
use safe_dock.Fleet.Summary.{at_risk}
use safe_dock.Compliance.{
  Group, fresh, tag_list, is_inherited, count_in, put, count_tag, count_tags, count_all, by_tag,
}

-- A container for each time that it carries the tag.
abbrev carried : Text → Container → List Text → List Container
carried t c [] = []
carried t c (u ∷ us) = if text_eq u t then c ∷ carried t c us else carried t c us

abbrev pub carriers : Text → List Container → List Container
carriers t [] = []
carriers t (c ∷ cs) = carried t c (tag_list c) ++ carriers t cs

abbrev scan_count : Container → ℕ
scan_count c = if c.scanned then 1 else 0

-- The group of a list of containers, by sums over it.
abbrev pub group_of : Text → List Container → Group
group_of t cs = record {
  name = t;
  count = length cs;
  score_sum = total (λ c. c.score) cs;
  crit = total (λ c. c.cve_critical) cs;
  high = total (λ c. c.cve_high) cs;
  med = total (λ c. c.cve_medium) cs;
  low = total (λ c. c.cve_low) cs;
  at_risk = total at_risk cs;
  scanned = total scan_count cs;
}

-- `byTag[t]`
abbrev pub lookup : Text → List Group → Option Group
lookup t gs = find (λ g. text_eq g.name t) gs

abbrev or_fresh : Text → Option Group → Group
or_fresh t none = fresh t
or_fresh t (some g) = g

-- The group of the tag after it has counted some containers.
abbrev counted : Text → Option Group → List Container → Option Group
counted t o [] = o
counted t o (c ∷ cs) = counted t (some (count_in c (or_fresh t o))) cs

put-same :
    (c : Container) (t : Text) (gs : List Group)
    → lookup t (put c t gs) ≡ some (count_in c (or_fresh t (lookup t gs)))
unfolding put count_in
put-same c t [] = ground (arith, text_eq_refl t)
put-same c t (g ∷ gs) = ground (arith, put-same c t gs)

put-other :
    (c : Container) (u t : Text) (gs : List Group)
    → text_eq u t ≡ false
    → lookup t (put c u gs) ≡ lookup t gs
unfolding put count_in
put-other c u t [] h = ground arith
put-other c u t (g ∷ gs) h = elim (Bool-cases (text_eq g.name u)) [
  | inl same ↦ ground (arith, (text_eq_iff g.name u).0 same)
  | inr differ ↦ ground (arith, put-other c u t gs h)
]

-- One more visit, as the group of a tag sees it.
lookup-count_tag :
    (c : Container) (u t : Text) (gs : List Group)
    → is_inherited t ≡ false
    → lookup t (count_tag c u gs)
      ≡ (if text_eq u t then some (count_in c (or_fresh t (lookup t gs))) else lookup t gs)
unfolding count_tag
lookup-count_tag c u t gs h = elim (Bool-cases (text_eq u t)) [
  | inl same ↦ ground (arith, (text_eq_iff u t).0 same, put-same c t gs)
  | inr differ ↦ ground (arith, put-other c u t gs differ)
]

lookup-count_tags :
    (c : Container) (us : List Text) (t : Text) (gs : List Group)
    → is_inherited t ≡ false
    → lookup t (count_tags c us gs) ≡ counted t (lookup t gs) (carried t c us)
unfolding count_tags
lookup-count_tags c [] t gs h = refl
lookup-count_tags c (u ∷ us) t gs h =
    ground (arith, lookup-count_tags c us t (count_tag c u gs) h, lookup-count_tag c u t gs h)

counted-append :
    (t : Text) (o : Option Group) (cs ds : List Container)
    → counted t o (cs ++ ds) ≡ counted t (counted t o cs) ds
counted-append t o [] ds = refl
counted-append t o (c ∷ cs) ds = counted-append t (some (count_in c (or_fresh t o))) cs ds

lookup-count_all :
    (cs : List Container) (t : Text) (gs : List Group)
    → is_inherited t ≡ false
    → lookup t (count_all cs gs) ≡ counted t (lookup t gs) (carriers t cs)
unfolding count_all
lookup-count_all [] t gs h = refl
lookup-count_all (c ∷ cs) t gs h =
    lookup-count_all cs t (count_tags c (tag_list c) gs) h
    ∙ ap (λ (o : Option Group). counted t o (carriers t cs))
        (lookup-count_tags c (tag_list c) t gs h)
    ∙ sym (counted-append t (lookup t gs) (carried t c (tag_list c)) (carriers t cs))

-- Counting adds the sums over the containers.
abbrev plus : Group → List Container → Group
plus g cs = record {
  name = g.name;
  count = g.count + length cs;
  score_sum = g.score_sum + total (λ c. c.score) cs;
  crit = g.crit + total (λ c. c.cve_critical) cs;
  high = g.high + total (λ c. c.cve_high) cs;
  med = g.med + total (λ c. c.cve_medium) cs;
  low = g.low + total (λ c. c.cve_low) cs;
  at_risk = g.at_risk + total at_risk cs;
  scanned = g.scanned + total scan_count cs;
}

counted-plus :
    (t : Text) (g : Group) (cs : List Container) → counted t (some g) cs ≡ some (plus g cs)
unfolding count_in
counted-plus t g [] = ground arith
counted-plus t g (c ∷ cs) = ground (arith, counted-plus t (count_in c g) cs)

counted-none :
    (t : Text) (cs : List Container)
    → counted t none cs ≡ (if length cs == 0 then none else some (group_of t cs))
unfolding count_in
counted-none t [] = refl
counted-none t (c ∷ cs) = ground (arith, counted-plus t (count_in c (fresh t)) cs)

-- A tag that is no name of `Object.prototype` has a group exactly if some container carries it, and
-- the group counts just those: how many they are, their scores, their CVEs by severity, those below
-- 75 and those scanned. A container counts once for each time it carries the tag, and one without
-- any tag counts under 'Sans tag'.
pub lookup-by_tag :
    (t : Text) (cs : List Container)
    → is_inherited t ≡ false
    → lookup t (by_tag cs)
      ≡ (if length (carriers t cs) == 0 then none else some (group_of t (carriers t cs)))
unfolding by_tag
lookup-by_tag t cs h = lookup-count_all cs t [] h ∙ counted-none t (carriers t cs)
