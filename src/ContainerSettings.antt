-- ===== src/ContainerSettings.antt =====
-- internal/web/frontend/src/components/ContainerSettingsView.jsx: the other form of the overrides, which
-- reads them under the names that it sends, and not under those of the server.
pub mod Prefilled
mod Tests
use safe_dock.Common.{
  ℕ, zero, suc, List, [], ◌∷◌, ◌++◌, Bool, true, false, not, Option, none, some, String, Text,
  codes, text_eq, str_eq, is_empty, if◌then◌else◌, find,
}
use safe_dock.Cockpit.Overrides.{Override, flag_of, payload, Value, string, boolean, null}
use safe_dock.Http.{or_text}

-- A member that is read from an override: it can be missing, which is not `null`.
pub data Member : Type 0 where
  undefined : Member
  value : Value → Member

-- An override as the server lists it: its members by their names.
unfoldable pub members : Override → List (Text × Value)
members o =
    (codes "secops_max_severity_allowed", string o.max_severity_allowed)
    ∷ (codes "secops_allow_root", flag o.allow_root)
    ∷ (codes "secops_allow_privileged", flag o.allow_privileged)
    ∷ (codes "secops_scanner", string o.scanner)
    ∷ []
  where
    flag : Option Bool → Value
    flag none = null
    flag (some b) = boolean b

abbrev found : Option (Text × Value) → Member
found none = undefined
found (some (k, v)) = value v

-- `ovr.key`
unfoldable pub read : Text → List (Text × Value) → Member
unfolding text_eq
read key ms = found (find (λ m. text_eq m.0 key) ms)

pub record Form : Type 0 where
  pub severity : Text
  pub root : Text
  pub privilege : Text

-- `m || ''` on a member that is shown as a text
abbrev or_blank : Member → Text
or_blank (value (string s)) = s
or_blank (value (boolean true)) = codes "true"
or_blank _ = []

-- `m === null ? '' : String(m)`
abbrev choice_of : Member → Text
choice_of undefined = codes "undefined"
choice_of (value null) = []
choice_of (value (boolean true)) = codes "true"
choice_of (value (boolean false)) = codes "false"
choice_of (value (string s)) = s

-- The effect on `overrides`, with the override of the container.
unfoldable pub fill : Option (List (Text × Value)) → Form
fill none = record { severity = []; root = []; privilege = [] }
fill (some ms) = record {
  severity = or_blank (read (codes "cve_severity_threshold") ms);
  root = choice_of (read (codes "allow_root_user") ms);
  privilege = choice_of (read (codes "allow_privileged_mode") ms);
}

pub record View : Type 0 where
  pub form : Form
  pub status : Text
  pub has_override : Bool

pub data Effect : Type 0 where
  quiet delete_override : Effect
  save_override : (severity : Text) (root privilege : Option Bool) → Effect

-- What `handleSave` calls, with the choices as flags.
unfoldable pub saved : Form → Effect
saved f = save_override f.severity (flag_of f.root) (flag_of f.privilege)

pub data Event : Type 0 where
  severity_chosen root_chosen privilege_chosen : Text → Event
  save_pressed delete_pressed : Event
  -- Whether the request succeeds.
  save_answered delete_answered : Bool → Event
  overrides_changed : Option (List (Text × Value)) → Event
  status_faded : Event

abbrev is_there : Option (List (Text × Value)) → Bool
is_there none = false
is_there (some ms) = true

unfoldable pub step : View → Event → View × Effect
step v (severity_chosen s) = (record v { form = record v.form { severity = s } }, quiet)
step v (root_chosen s) = (record v { form = record v.form { root = s } }, quiet)
step v (privilege_chosen s) = (record v { form = record v.form { privilege = s } }, quiet)
step v save_pressed = (record v { status = codes "Enregistrement..." }, saved v.form)
step v delete_pressed =
    if not v.has_override
    then (v, quiet)
    else (record v { status = codes "Suppression..." }, delete_override)
step v (save_answered true) = (record v { status = codes "Paramètres sauvegardés." }, quiet)
step v (save_answered false) = (record v { status = codes "Erreur d'enregistrement." }, quiet)
step v (delete_answered true) =
    (record v { form = fill none; status = codes "Surcharge supprimée." }, quiet)
step v (delete_answered false) = (record v { status = codes "Erreur." }, quiet)
step v (overrides_changed o) = (record v { form = fill o; has_override = is_there o }, quiet)
step v status_faded = (record v { status = [] }, quiet)
