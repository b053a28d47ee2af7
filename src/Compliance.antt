-- ===== src/Compliance.antt =====
-- internal/web/frontend/src/components/ComplianceView.jsx: the posture of the fleet, tag by tag.
pub mod Groups
pub mod Rows
mod Tests
use safe_dock.Common.{
  ℕ, zero, suc, ◌+◌, ◌-◌, ◌*◌, ◌/◌, ◌^◌, List, [], ◌∷◌, ◌++◌, map, Bool, true, false, not, ◌&&◌,
  ◌||◌, Option, none, some, Text, codes, text_eq, ltb, leb, ◌==◌, if◌then◌else◌, length, keep, find,
  any,
}
use safe_dock.Common.Sort.{sort_by}
use safe_dock.PasswordPolicy.{is_digit}
use safe_dock.Fleet.{Container, round_div}
use safe_dock.Grades.{Grade, grade_from_score}

-- A value of `byTag`.
pub record Group : Type 0 where
  pub name : Text
  pub count : ℕ
  pub score_sum : ℕ
  pub crit : ℕ
  pub high : ℕ
  pub med : ℕ
  pub low : ℕ
  pub at_risk : ℕ
  pub scanned : ℕ

abbrev pub fresh : Text → Group
fresh t = record {
  name = t;
  count = 0;
  score_sum = 0;
  crit = 0;
  high = 0;
  med = 0;
  low = 0;
  at_risk = 0;
  scanned = 0;
}

abbrev pub untagged : Text
untagged = codes "Sans tag"

-- `tagList`
abbrev pub tag_list : Container → List Text
tag_list c = elim c.tags [ [] ↦ untagged ∷ [] | t ∷ ts ↦ t ∷ ts ]

-- What an empty object has from `Object.prototype`. `byTag[t]` is one of these for such a name, and
-- so truthy: no group is made, and the counters go astray.
abbrev inherited : List Text
inherited = map codes (
    "constructor" ∷ "toString" ∷ "toLocaleString" ∷ "valueOf" ∷ "hasOwnProperty" ∷ "isPrototypeOf"
    ∷ "propertyIsEnumerable" ∷ "__proto__" ∷ "__defineGetter__" ∷ "__defineSetter__"
    ∷ "__lookupGetter__" ∷ "__lookupSetter__" ∷ [])

unfoldable pub is_inherited : Text → Bool
is_inherited t = any (text_eq t) inherited

-- The body of the inner loop, on the group of the tag.
unfoldable pub count_in : Container → Group → Group
count_in c g = record {
  name = g.name;
  count = g.count + 1;
  score_sum = g.score_sum + c.score;
  crit = g.crit + c.cve_critical;
  high = g.high + c.cve_high;
  med = g.med + c.cve_medium;
  low = g.low + c.cve_low;
  at_risk = if ltb c.score 75 then g.at_risk + 1 else g.at_risk;
  scanned = if c.scanned then g.scanned + 1 else g.scanned;
}

-- `byTag[t] || (byTag[t] = …)`, in the order in which the names come up.
unfoldable pub put : Container → Text → List Group → List Group
put c t [] = count_in c (fresh t) ∷ []
put c t (g ∷ gs) = if text_eq g.name t then count_in c g ∷ gs else g ∷ put c t gs

unfoldable pub count_tag : Container → Text → List Group → List Group
count_tag c t gs = if is_inherited t then gs else put c t gs

-- The inner loop, and the outer one.
unfoldable pub count_tags : Container → List Text → List Group → List Group
count_tags c [] gs = gs
count_tags c (t ∷ ts) gs = count_tags c ts (count_tag c t gs)

unfoldable pub count_all : List Container → List Group → List Group
count_all [] gs = gs
count_all (c ∷ cs) gs = count_all cs (count_tags c (tag_list c) gs)

-- `byTag`
unfoldable pub by_tag : List Container → List Group
by_tag cs = count_all cs []

-- A name that stands for an array index: such properties come first, by number.
index_from : ℕ → Text → Option ℕ
index_from n [] = some n
index_from n (c ∷ s) = if is_digit c then index_from (n * 10 + (c - 48)) s else none

below : Option ℕ → Option ℕ
below none = none
below (some n) = if ltb n (2 ^ 32 - 1) then some n else none

array_index : Text → Option ℕ
array_index [] = none
array_index (c ∷ []) = index_from 0 (c ∷ [])
array_index (c ∷ d ∷ s) = if c == 48 then none else below (index_from 0 (c ∷ d ∷ s))

-- Whether a property comes behind another one that was added later.
later_index : Option ℕ → Option ℕ → Bool
later_index (some m) (some n) = ltb n m
later_index none (some n) = true
later_index _ none = false

unfoldable pub comes_behind : Group → Group → Bool
unfolding later_index array_index below index_from
comes_behind g h = later_index (array_index g.name) (array_index h.name)

-- `Object.values`
unfoldable pub object_values : List Group → List Group
object_values gs = sort_by comes_behind gs

-- `avg`
abbrev pub average : Group → ℕ
average g = round_div g.score_sum g.count

-- `(a, b) => a.avg - b.avg`, positive
abbrev pub better : Group → Group → Bool
better g h = ltb (average h) (average g)

unfoldable pub rows : List Container → List Group
rows cs = sort_by better (object_values (by_tag cs))

-- What a card shows of its group. The percentage is rounded exactly: on the doubles of JavaScript a
-- tie can come out just below, and the result be one less.
pub record Card : Type 0 where
  pub grade : Grade
  pub secure_pct : ℕ
  pub pending : ℕ
  pub no_cve : Bool
  pub all_sound : Bool

unfoldable pub card_of : Group → Card
card_of g = record {
  grade = grade_from_score (average g);
  secure_pct = (2 * (g.count - g.at_risk) * 100 + g.count) / (2 * g.count);
  pending = g.count - g.scanned;
  no_cve = g.crit + g.high + g.med + g.low == 0;
  all_sound = not (ltb 0 g.at_risk);
}
