-- ===== src/Cockpit/Overrides.antt =====
-- The overrides of a container, from the forms of components/ContainerDetailView.jsx and
-- components/ContainerSettingsView.jsx through `handleSaveOverride` of App.jsx to what
-- internal/api/handlers.go reads of the request.
use safe_dock.Common.{
  ◌≡◌, refl, List, [], ◌∷◌, Bool, true, false, Option, none, some, Text, codes, text_eq, is_empty,
  if◌then◌else◌, find, arith,
}

-- An override as the server keeps and lists it, under the keys secops_….
pub record Override : Type 0 where
  pub max_severity_allowed : Text
  pub allow_root : Option Bool
  pub allow_privileged : Option Bool
  pub scanner : Text

-- `ovrSeverity`, `ovrAllowRoot`, `ovrAllowPrivilege` and `ovrScanner`
pub record Form : Type 0 where
  pub severity : Text
  pub root : Text
  pub privilege : Text
  pub engine : Text

-- `v === null ? '' : String(v)`
abbrev choice_of : Option Bool → Text
choice_of none = []
choice_of (some true) = codes "true"
choice_of (some false) = codes "false"

-- The effect that fills the form of ContainerDetailView.jsx in.
unfoldable pub prefill : Option Override → Form
prefill none = record { severity = []; root = []; privilege = []; engine = [] }
prefill (some o) = record {
  severity = o.max_severity_allowed;
  root = choice_of o.allow_root;
  privilege = choice_of o.allow_privileged;
  engine = o.scanner;
}

-- `s === '' ? null : s === 'true'`
unfoldable pub flag_of : Text → Option Bool
flag_of s = if is_empty s then none else some (text_eq s (codes "true"))

-- The arguments that its `handleSaveOverride` gives to `onSaveOverride`, behind the name.
unfoldable pub sent : Form → Override
sent f = record {
  max_severity_allowed = f.severity;
  allow_root = flag_of f.root;
  allow_privileged = flag_of f.privilege;
  scanner = f.engine;
}

-- A value of a JSON object.
pub data Value : Type 0 where
  string : Text → Value
  boolean : Bool → Value
  null : Value

abbrev optional : Option Bool → Value
optional none = null
optional (some b) = boolean b

-- `handleSaveOverride` of App.jsx: the body of the request. It has no parameter for the scanner.
unfoldable pub payload : Text → Override → List (Text × Value)
payload name o =
    (codes "container_name", string name)
    ∷ (codes "cve_severity_threshold", string o.max_severity_allowed)
    ∷ (codes "allow_root_user", optional o.allow_root)
    ∷ (codes "allow_privileged_mode", optional o.allow_privileged)
    ∷ []

-- A member of the body, as the server's decoder takes it: a missing one is the zero of its type.
abbrev text_member : Option (Text × Value) → Text
text_member (some (k, string s)) = s
text_member _ = []

abbrev flag_member : Option (Text × Value) → Option Bool
flag_member (some (k, boolean b)) = some b
flag_member _ = none

abbrev member : Text → List (Text × Value) → Option (Text × Value)
member key body = find (λ m. text_eq m.0 key) body

-- What `HandleContainersSettings` decodes: the name, which it then refuses if it is empty, and the
-- override. A member of another type, on which the decoding fails, is not told from a missing one.
unfoldable pub decoded : List (Text × Value) → Text × Override
decoded body = (
  text_member (member (codes "container_name") body),
  record {
    max_severity_allowed = text_member (member (codes "secops_max_severity_allowed") body);
    allow_root = flag_member (member (codes "secops_allow_root") body);
    allow_privileged = flag_member (member (codes "secops_allow_privileged") body);
    scanner = text_member (member (codes "secops_scanner") body);
  },
)

abbrev pub no_override : Override
no_override = record {
  max_severity_allowed = [];
  allow_root = none;
  allow_privileged = none;
  scanner = [];
}

-- The form of the cockpit loses nothing: opened on any override and saved without a change, it gives
-- just that override to `handleSaveOverride` of App.jsx.
sent-prefill : (o : Override) → sent (prefill (some o)) ≡ o
unfolding sent prefill flag_of text_eq
sent-prefill o = ground arith

-- No choice of an override arrives: whatever override App.jsx is given, the server reads from its request the
-- name and an override that inherits everything, since the keys of the two sides differ.
pub decoded-payload : (name : Text) (o : Override) → decoded (payload name o) ≡ (name, no_override)
unfolding decoded payload text_eq
decoded-payload name o = refl
