-- ===== src/Dashboard.antt =====
-- internal/web/frontend/src/components/DashboardView.jsx: the filter of the cards, the counters of
-- the vulnerabilities, the list of the most urgent actions, and what the page shows of them.
pub mod Actions
pub mod Figures
mod Tests
use safe_dock.Common.{
  ℕ, suc, ◌+◌, ◌-◌, ◌*◌, ◌/◌, max, List, [], ◌∷◌, ◌++◌, map, Bool, true, false, not, ◌&&◌, ◌||◌,
  Option, none, some, String, Text, ltb, leb, ◌==◌, str_eq, if◌then◌else◌, length, take, keep,
}
use safe_dock.Common.Sort.{sort_by}
use safe_dock.Fleet.{Container, Stats, leak_count, round_div}

-- `activeFilter`
pub data Filter : Type 0 where
  all secure warning : Filter

-- `filteredContainers`
unfoldable pub filtered_containers : Filter → List Container → List Container
filtered_containers all cs = cs
filtered_containers secure cs = keep (λ c. leb 75 c.score) cs
filtered_containers warning cs = keep (λ c. ltb c.score 75) cs

-- `securePct`, rounded exactly: on the doubles of JavaScript the quotient of a tie can come out just
-- below it, and the result be one less.
unfoldable pub secure_pct : Stats → ℕ
secure_pct s = if ltb 0 s.total then (2 * s.secure * 100 + s.total) / (2 * s.total) else 100

-- `cveCounts`
pub record Counts : Type 0 where
  pub critical : ℕ
  pub high : ℕ
  pub medium : ℕ
  pub low : ℕ

count_cves : Counts → List Container → Counts
count_cves n [] = n
count_cves n (c ∷ cs) =
    count_cves
      (record {
        critical = n.critical + c.cve_critical;
        high = n.high + c.cve_high;
        medium = n.medium + c.cve_medium;
        low = n.low + c.cve_low;
      })
      cs

unfoldable pub cve_counts : List Container → Counts
unfolding count_cves
cve_counts cs = count_cves (record { critical = 0; high = 0; medium = 0; low = 0 }) cs

-- `cveTotal`
abbrev pub cve_total : Counts → ℕ
cve_total n = n.critical + n.high + n.medium + n.low

-- `SEV`
pub data Severity : Type 0 where
  critique eleve moyen maj : Severity

abbrev pub rank : Severity → ℕ
rank critique = 0
rank eleve = 1
rank moyen = 2
rank maj = 3

-- The texts of `desc`; the second one counts the secrets.
pub data Reason : Type 0 where
  privileged : Reason
  secrets : ℕ → Reason
  root unpinned update : Reason

-- An entry of `actions`.
pub record Action : Type 0 where
  pub severity : Severity
  pub id : String
  pub name : Text
  pub desc : Reason

action_if : Bool → Container → Severity → Reason → List Action → List Action
action_if test c s r later =
    if test then record { severity = s; id = c.id; name = c.name; desc = r } ∷ later else later

-- What the loop pushes for one container, in its order.
unfoldable pub actions_of : Container → List Action
unfolding action_if
actions_of c = action_if c.is_privileged c critique privileged (
    action_if (ltb 0 (leak_count c.secret_leaks)) c critique (secrets (leak_count c.secret_leaks)) (
      action_if c.is_root c eleve root (
        action_if (not c.tag_pinned) c moyen unpinned
          (action_if c.update_available c maj update []))))

unfoldable pub collect : List Container → List Action
collect [] = []
collect (c ∷ cs) = actions_of c ++ collect cs

-- `(a, b) => a.rank - b.rank`, positive
abbrev pub less_urgent : Action → Action → Bool
less_urgent a b = ltb (rank b.severity) (rank a.severity)

-- `actions`, after its sort
unfoldable pub sorted_actions : List Container → List Action
sorted_actions cs = sort_by less_urgent (collect cs)

-- `topActions`
unfoldable pub top_actions : List Container → List Action
unfolding sorted_actions
top_actions cs = take 3 (sorted_actions cs)

-- `logStatusLabel`
pub data LogLabel : Type 0 where
  succes bloque echec : LogLabel

unfoldable pub log_status_label : String → LogLabel
log_status_label s =
    if str_eq s "SUCCESS" || str_eq s "CLEAN"
    then succes
    else (if str_eq s "BLOCKED" then bloque else echec)

-- The block of the actions: a list with its badge, or the notice that nothing is to be done.
pub data ActionPanel : Type 0 where
  none_required : ActionPanel
  listed : ℕ → List Action → ActionPanel

unfoldable pub action_panel : List Container → ActionPanel
action_panel cs =
    if length (top_actions cs) == 0
    then none_required
    else listed (length (sorted_actions cs)) (top_actions cs)

-- The section of the cards.
pub data Cards : Type 0 where
  auditing no_match : Cards
  cards : List Container → Cards

unfoldable pub card_section : Filter → List Container → Cards
card_section f cs =
    if length cs == 0
    then auditing
    else (if length (filtered_containers f cs) == 0
        then no_match
        else cards (filtered_containers f cs))
