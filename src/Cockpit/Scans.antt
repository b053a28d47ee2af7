-- ===== src/Cockpit/Scans.antt =====
-- What internal/web/frontend/src/components/ContainerDetailView.jsx asks the server for, and what its
-- tabs show of the answers: `fetchTrivy`, `fetchDockle`, `fetchHistory`, the saving and the deletion of
-- an override, and the effects. Requests of one kind can overlap, and each closure keeps the scanner
-- that the form named when the handler was made.
pub mod Drained
pub mod Stale
mod Tests
use safe_dock.Common.Flight.{pick}
use safe_dock.Common.{
  ℕ, zero, suc, ◌+◌, List, [], ◌∷◌, ◌++◌, Bool, true, false, ◌||◌, Option, none, some, Text, codes,
  text_eq, is_empty, if◌then◌else◌, map,
}
use safe_dock.Cockpit.{Vulnerability, Table, filtered_cves}
use safe_dock.Cockpit.Overrides.{Override, Form, prefill, sent}

-- How a request ends: with a report, with a status that is no success, or with an error.
pub data Answer (A : Type 0) : Type 0 where
  good : A → Answer A
  refused : Answer A
  failed : Text → Answer A

-- `…Report`, `…Loading` and `…Error`, and how many requests are on their way.
pub record Job (A : Type 0) : Type 0 where
  pub report : Option A
  pub loading : Bool
  pub error : Text
  pub running : ℕ

module _ {A : Type 0} where
  abbrev pub fresh : Job A
  fresh = record { report = none; loading = false; error = []; running = 0 }

  unfoldable pub begin : Job A → Job A
  begin j = record j { loading = true; error = []; running = suc j.running }

  -- `.then(…).catch(…).finally(…)`, with the message of a status that is no success.
  unfoldable pub take_answer : Text → Answer A → Job A → Job A
  take_answer label (good r) j = record j { report = some r; loading = false }
  take_answer label refused j = record j { error = label; loading = false }
  take_answer label (failed m) j = record j { error = m; loading = false }

  unfoldable pub finish : ℕ → Text → Answer A → Job A → Job A
  unfolding take_answer
  finish zero label a j = j
  finish (suc n) label a j = take_answer label a (record j { running = n })

-- A point of the trend: the vulnerabilities that one scan has found.
pub record Point : Type 0 where
  pub scanned_at : Text
  pub scanner : Text
  pub critical : ℕ
  pub high : ℕ
  pub medium : ℕ
  pub low : ℕ

-- `history` and `historyLoading`: a failure empties the list.
pub record History : Type 0 where
  pub points : List Point
  pub loading : Bool
  pub running : ℕ

unfoldable pub begin_history : History → History
begin_history h = record h { loading = true; running = suc h.running }

-- `Array.isArray(data) ? data : []`, and `[]` behind a failure.
abbrev pub points_of : Answer (List Point) → List Point
points_of (good ps) = ps
points_of _ = []

unfoldable pub finish_history : ℕ → Answer (List Point) → History → History
finish_history zero a h = h
finish_history (suc n) a h = record { points = points_of a; loading = false; running = n }

-- An item of `details`.
pub record Assessment : Type 0 where
  pub code : Text
  pub level : Text
  pub title : Text
  pub alerts : List Text

pub record Cockpit : Type 0 where
  pub form : Form
  pub save_status : Text
  pub trivy : Job (List Vulnerability)
  pub dockle : Job (List Assessment)
  pub history : History
  -- The scanners in the closures of the saves and the deletions that are on their way.
  pub saves : List Text
  pub deletes : List Text

abbrev pub opened : Cockpit
opened = record {
  form = prefill none;
  save_status = [];
  trivy = fresh;
  dockle = fresh;
  history = record { points = []; loading = false; running = 0 };
  saves = [];
  deletes = [];
}

pub data Effect : Type 0 where
  get_trivy : (scanner : Text) → Effect
  get_dockle get_history delete_override : Effect
  post_override : Override → Effect

pub data Event : Type 0 where
  -- The effect on `containerId`.
  mounted : Event
  trivy_pressed dockle_pressed history_pressed save_pressed delete_pressed : Event
  engine_chosen severity_chosen root_chosen privilege_chosen : Text → Event
  trivy_answered : Answer (List Vulnerability) → Event
  dockle_answered : Answer (List Assessment) → Event
  history_answered : Answer (List Point) → Event
  -- The save, or the deletion, with this number among those on their way, and whether it succeeds.
  save_answered delete_answered : ℕ → Bool → Event
  -- The effect on `overrides`, with the container's own.
  overrides_changed : Option Override → Event
  status_faded : Event

-- `fetchTrivy` of a closure.
unfoldable pub scan : Text → Cockpit → Cockpit × List Effect
unfolding begin
scan engine c = (record c { trivy = begin c.trivy }, get_trivy engine ∷ [])

-- `handleSaveOverride`, behind its promise.
unfoldable pub on_saved : Option Text → List Text → Bool → Cockpit → Cockpit × List Effect
on_saved none rest ok c = (c, [])
on_saved (some engine) rest true c =
    scan engine (record c { saves = rest; save_status = codes "Paramètres sauvegardés." })
on_saved (some engine) rest false c = (record c { saves = rest; save_status = codes "Erreur." }, [])

-- `handleDeleteOverride`, behind its promise.
unfoldable pub on_deleted : Option Text → List Text → Bool → Cockpit → Cockpit × List Effect
on_deleted none rest ok c = (c, [])
on_deleted (some engine) rest true c =
    scan engine
      (record c { deletes = rest; form = prefill none; save_status = codes "Surcharge supprimée." })
on_deleted (some engine) rest false c =
    (record c { deletes = rest; save_status = codes "Erreur." }, [])

unfoldable pub step : Cockpit → Event → Cockpit × List Effect
step c mounted = (
  record c { trivy = begin c.trivy; dockle = begin c.dockle; history = begin_history c.history },
  get_trivy c.form.engine ∷ get_dockle ∷ get_history ∷ [],
)
step c trivy_pressed = if c.trivy.loading then (c, []) else scan c.form.engine c
step c dockle_pressed =
    if c.dockle.loading then (c, []) else (record c { dockle = begin c.dockle }, get_dockle ∷ [])
step c history_pressed =
    if c.history.loading
    then (c, [])
    else (record c { history = begin_history c.history }, get_history ∷ [])
step c save_pressed = (
  record c { save_status = codes "Enregistrement..."; saves = c.saves ++ c.form.engine ∷ [] },
  post_override (sent c.form) ∷ [],
)
step c delete_pressed = (
  record c { save_status = codes "Suppression..."; deletes = c.deletes ++ c.form.engine ∷ [] },
  delete_override ∷ [],
)
step c (engine_chosen v) = (record c { form = record c.form { engine = v } }, [])
step c (severity_chosen v) = (record c { form = record c.form { severity = v } }, [])
step c (root_chosen v) = (record c { form = record c.form { root = v } }, [])
step c (privilege_chosen v) = (record c { form = record c.form { privilege = v } }, [])
step c (trivy_answered a) =
    (record c { trivy = finish c.trivy.running (codes "Erreur de scan") a c.trivy }, [])
step c (dockle_answered a) =
    (record c { dockle = finish c.dockle.running (codes "Erreur Dockle") a c.dockle }, [])
step c (history_answered a) =
    (record c { history = finish_history c.history.running a c.history }, [])
step c (save_answered n ok) = let (found, rest) = pick n c.saves in on_saved found rest ok c
step c (delete_answered n ok) = let (found, rest) = pick n c.deletes in on_deleted found rest ok c
step c (overrides_changed o) = (record c { form = prefill o }, [])
step c status_faded = (record c { save_status = [] }, [])

unfoldable pub run : Cockpit → List Event → Cockpit
run c [] = c
run c (e ∷ es) = run (step c e).0 es

-- What a tab shows.
pub data Panel (A : Type 0) : Type 0 where
  spinner : Panel A
  message : Text → Panel A
  nothing : Panel A
  list : A → Panel A

abbrev pub list_or_nothing : {A : Type 0} → List A → Panel (List A)
list_or_nothing [] = nothing
list_or_nothing (x ∷ xs) = list (x ∷ xs)

-- `report?.… || []`
abbrev pub or_nil : {A : Type 0} → Option (List A) → List A
or_nil none = []
or_nil (some xs) = xs

-- The tab of the vulnerabilities.
unfoldable pub trivy_panel :
    (Text → Text) → Table → Job (List Vulnerability) → Panel (List Vulnerability)
trivy_panel to_lower t j =
    if j.loading
    then spinner
    else (if is_empty j.error
        then list_or_nothing (filtered_cves to_lower t (or_nil j.report))
        else message j.error)

-- The tab of Dockle. A rule with no code is named, and two levels are set off.
unfoldable pub rule_shown : Assessment → Text × Bool
rule_shown a = (
  if is_empty a.code then codes "DKL_RULE" else a.code,
  text_eq a.level (codes "FATAL") || text_eq a.level (codes "WARN"),
)

unfoldable pub dockle_panel : Job (List Assessment) → Panel (List (Text × Bool))
unfolding rule_shown
dockle_panel j =
    if j.loading
    then spinner
    else (if is_empty j.error
        then list_or_nothing (map rule_shown (or_nil j.report))
        else message j.error)
