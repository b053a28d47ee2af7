-- ===== src/Fleet.antt =====
-- The containers of the console: internal/web/frontend/src/App.jsx, `fetchContainers` (what the
-- answer of /api/containers becomes) and the effect that computes `stats`.
pub mod Score
pub mod Summary
pub mod Tests
use safe_dock.Common.{
  ℕ, suc, ◌+◌, ◌-◌, ◌*◌, ◌/◌, min, List, [], ◌∷◌, map, Bool, true, false, not, ◌&&◌, ◌||◌, Option,
  none, some, String, Text, codes, text_eq, ltb, ◌==◌, if◌then◌else◌, length, total,
}
use safe_dock.Grades.{Grade, grade_from_score}

-- An item of the answer. A field that may be missing or null is an `Option`; a missing flag is
-- falsy, as `false`. The counts are never negative.
pub record RawContainer : Type 0 where
  pub id : String
  pub name : Text
  pub image_name : Text
  pub image_tag : Text
  pub host_id : Option ℕ
  pub host_name : Option Text
  pub is_root : Bool
  pub is_privileged : Bool
  pub tag_pinned : Bool
  pub secret_leaks : Option (List Text)
  pub tags : Option (List Text)
  pub scanned : Bool
  pub cve_critical : Option ℕ
  pub cve_high : Option ℕ
  pub cve_medium : Option ℕ
  pub cve_low : Option ℕ

-- What is kept of it in the state `containers`.
pub record Container : Type 0 where
  pub id : String
  pub name : Text
  pub image_name : Text
  pub image_tag : Text
  pub host_id : Option ℕ
  pub host_name : Text
  pub is_root : Bool
  pub is_privileged : Bool
  pub tag_pinned : Bool
  pub secret_leaks : Option (List Text)
  pub tags : List Text
  pub scanned : Bool
  pub cve_critical : ℕ
  pub cve_high : ℕ
  pub cve_medium : ℕ
  pub cve_low : ℕ
  pub non_root : Bool
  pub privileged_safe : Bool
  pub score : ℕ
  pub grade : Grade
  pub update_available : Bool

-- `x || 0`
abbrev pub or_zero : Option ℕ → ℕ
or_zero none = 0
or_zero (some n) = n

-- `xs || []`
abbrev pub or_nil {ℓ} : {A : Type ℓ} → Option (List A) → List A
or_nil none = []
or_nil (some xs) = xs

-- `c.host_name || 'Hôte local'`
abbrev pub host_or_local : Option Text → Text
host_or_local none = codes "Hôte local"
host_or_local (some []) = codes "Hôte local"
host_or_local (some (u ∷ s)) = u ∷ s

-- The number of leaked secrets: 0 where `secret_leaks` is missing.
abbrev pub leak_count : Option (List Text) → ℕ
leak_count leaks = length (or_nil leaks)

-- The ladder of deductions. `-` stops at 0, as the last line, `if (score < 0) score = 0`, does.
unfoldable pub score_of : RawContainer → ℕ
score_of c =
    let pinned : ℕ = if c.tag_pinned then 100 else 100 - 25 in
    let rooted : ℕ = if c.is_root then pinned - 25 else pinned in
    let privileged : ℕ = if c.is_privileged then rooted - 30 else rooted in
    if ltb 0 (leak_count c.secret_leaks)
    then privileged - min 20 (leak_count c.secret_leaks * 10)
    else privileged

-- `!c.tag_pinned && (c.image_tag === 'latest' || c.image_tag === 'dev')`
unfoldable pub is_update_available : RawContainer → Bool
is_update_available c =
    not c.tag_pinned && (text_eq c.image_tag (codes "latest") || text_eq c.image_tag (codes "dev"))

-- The function that `fetchContainers` maps over the answer.
unfoldable pub process : RawContainer → Container
process c = record {
  id = c.id;
  name = c.name;
  image_name = c.image_name;
  image_tag = c.image_tag;
  host_id = c.host_id;
  host_name = host_or_local c.host_name;
  is_root = c.is_root;
  is_privileged = c.is_privileged;
  tag_pinned = c.tag_pinned;
  secret_leaks = c.secret_leaks;
  tags = or_nil c.tags;
  scanned = c.scanned;
  cve_critical = or_zero c.cve_critical;
  cve_high = or_zero c.cve_high;
  cve_medium = or_zero c.cve_medium;
  cve_low = or_zero c.cve_low;
  non_root = not c.is_root;
  privileged_safe = not c.is_privileged;
  score = score_of c;
  grade = grade_from_score (score_of c);
  update_available = is_update_available c;
}

-- `(data || []).map(…)`
unfoldable pub process_all : Option (List RawContainer) → List Container
process_all answer = map process (or_nil answer)

-- The state `stats`.
pub record Stats : Type 0 where
  pub total : ℕ
  pub secure : ℕ
  pub warnings : ℕ
  pub cves : ℕ
  pub updates_available : ℕ
  pub global_grade : Grade
  pub global_score : ℕ

-- All the CVEs of a container.
abbrev pub cve_count : Container → ℕ
cve_count c = c.cve_critical + c.cve_high + c.cve_medium + c.cve_low

-- The variables of the loop over the containers.
pub record Tally : Type 0 where
  pub sum_score : ℕ
  pub crit_count : ℕ
  pub updates_avail : ℕ

tally_step : Tally → Container → Tally
tally_step t c = record {
  sum_score = t.sum_score + c.score;
  crit_count = if ltb c.score 75 then t.crit_count + 1 else t.crit_count;
  updates_avail = if c.update_available then t.updates_avail + 1 else t.updates_avail;
}

tally : Tally → List Container → Tally
tally t [] = t
tally t (c ∷ cs) = tally (tally_step t c) cs

-- The `reduce` over the CVE counters.
add_cves : ℕ → List Container → ℕ
add_cves acc [] = acc
add_cves acc (c ∷ cs) = add_cves (acc + c.cve_critical + c.cve_high + c.cve_medium + c.cve_low) cs

-- `Math.round(sum / count)` for whole numbers: the nearest one, halves upwards.
abbrev pub round_div : ℕ → ℕ → ℕ
round_div sum count = (2 * sum + count) / (2 * count)

unfoldable pub stats_of : List Container → Stats
unfolding tally tally_step add_cves
stats_of [] = record {
  total = 0;
  secure = 0;
  warnings = 0;
  cves = 0;
  updates_available = 0;
  global_grade = Grade.a;
  global_score = 100;
}
stats_of (c ∷ cs) =
    let count : ℕ = length (c ∷ cs) in
    let t = tally (record { sum_score = 0; crit_count = 0; updates_avail = 0 }) (c ∷ cs) in
    let avg : ℕ = round_div t.sum_score count in
    record {
      total = count;
      secure = count - t.crit_count;
      warnings = t.crit_count;
      cves = add_cves 0 (c ∷ cs);
      updates_available = t.updates_avail;
      global_grade = grade_from_score avg;
      global_score = avg;
    }
