-- ===== src/Agents.antt =====
-- internal/web/frontend/src/components/AgentsView.jsx: the form of a remote host, the assistant that
-- generates a script, the tests of the hosts and the identity of SafeDock, with `handleAddHost` and
-- `handleTestHost` of App.jsx. The clipboard and the timers of its marks are not modelled. A handler
-- runs up to its `await`; what stands behind it keeps the values of its closure.
pub mod Rows
pub mod Requests
mod Tests
use safe_dock.Common.{
  ℕ, suc, ◌+◌, List, [], ◌∷◌, ◌++◌, Bool, true, false, not, ◌&&◌, ◌||◌, Option, none, some, Text,
  codes, is_empty, ◌==◌, if◌then◌else◌,
}
use safe_dock.Common.Int.{ℤ, pos, negsuc}
use safe_dock.Http.{or_text}
use safe_dock.Inventory.{has_prefix}
use safe_dock.Trim.{trim, parse_int}

-- `status`
pub data Status : Type 0 where
  silent : Status
  info success failure : Text → Status

pub data Platform : Type 0 where
  linux windows : Platform

pub data Mode : Type 0 where
  ssh advanced : Mode

-- `testResults[id]`
pub data Test : Type 0 where
  loading passed : Test
  failed : Text → Test

-- What `onTestHost` gives: `ok` with `error`, or a rejection.
pub data Outcome : Type 0 where
  tested : Bool → Text → Outcome
  broken : Text → Outcome

-- What the form waits for: a test of its host, the adding of it, and then the list of the hosts.
pub data Wait : Type 0 where
  test add list : Wait

-- The closure of a script that is being generated.
pub record Asked : Type 0 where
  pub platform : Platform
  pub address : Text
  pub named : Text

pub record Agents : Type 0 where
  pub name : Text
  pub endpoint : Text
  pub tls_ca : Text
  pub tls_cert : Text
  pub tls_key : Text
  pub status : Status
  pub busy : Bool
  pub waiting : Option Wait
  pub mode : Mode
  pub target_os : Platform
  pub ssh_addr : Text
  pub ssh_port : Text
  pub ssh_user : Text
  pub from_ip : Text
  pub script : Text
  pub script_os : Platform
  pub gen_busy : Bool
  pub asked : Option Asked
  -- The last assignment comes first.
  pub results : List (ℕ × Test)

abbrev pub initial : Agents
initial = record {
  name = [];
  endpoint = [];
  tls_ca = [];
  tls_cert = [];
  tls_key = [];
  status = silent;
  busy = false;
  waiting = none;
  mode = ssh;
  target_os = linux;
  ssh_addr = [];
  ssh_port = codes "22";
  ssh_user = codes "safedock";
  from_ip = [];
  script = [];
  script_os = linux;
  gen_busy = false;
  asked = none;
  results = [];
}

pub record Host : Type 0 where
  pub name : Text
  pub endpoint : Text
  pub tls_ca : Text
  pub tls_cert : Text
  pub tls_key : Text

pub record ScriptRequest : Type 0 where
  pub address : Text
  pub port : ℤ
  pub user : Text
  pub controller_ip : Text
  pub platform : Platform

pub data Effect : Type 0 where
  quiet get_hosts : Effect
  post_script : ScriptRequest → Effect
  post_host test_form : Host → Effect
  test_host : ℕ → Effect

-- The answer with a script: a missing text is empty.
pub record Script : Type 0 where
  pub script : Text
  pub platform : Option Platform
  pub endpoint : Text

pub data Event : Type 0 where
  name_typed endpoint_typed ca_typed cert_typed key_typed : Text → Event
  addr_typed port_typed user_typed from_typed : Text → Event
  mode_chosen : Mode → Event
  os_chosen : Platform → Event
  generate_pressed test_pressed submitted : Event
  generated : Script → Event
  generation_failed : Text → Event
  form_tested : Outcome → Event
  added : Event
  add_failed : Text → Event
  listed status_faded : Event
  row_pressed : ℕ → Event
  row_tested : ℕ → Outcome → Event

-- `payload`
unfoldable pub payload : Agents → Host
payload a = record {
  name = trim a.name;
  endpoint = trim a.endpoint;
  tls_ca = a.tls_ca;
  tls_cert = a.tls_cert;
  tls_key = a.tls_key;
}

-- `parseInt(sshPort, 10) || 22`
abbrev pub or_port : Option ℤ → ℤ
or_port none = pos 22
or_port (some (pos n)) = if n == 0 then pos 22 else pos n
or_port (some (negsuc n)) = negsuc n

unfoldable pub script_request : Agents → ScriptRequest
script_request a = record {
  address = trim a.ssh_addr;
  port = or_port (parse_int a.ssh_port);
  user = or_text (trim a.ssh_user) (codes "safedock");
  controller_ip = trim a.from_ip;
  platform = a.target_os;
}

-- `generateScript`, up to its `await`; its button is disabled while it runs.
unfoldable pub generate : Agents → Agents × Effect
generate a = if a.gen_busy || is_empty (trim a.ssh_addr) then (a, quiet) else (
  record a {
    gen_busy = true;
    script = [];
    status = info (codes "Génération du script…");
    asked = some (record { platform = a.target_os; address = a.ssh_addr; named = a.name });
  },
  post_script (script_request a),
)

abbrev or_platform : Option Platform → Platform → Platform
or_platform none p = p
or_platform (some q) p = q

abbrev ready_message : Platform → Text
ready_message windows =
    codes "Script généré — lancez-le en Administrateur (PowerShell) sur l’hôte cible."
ready_message linux = codes "Script généré — lancez-le en root sur l’hôte cible."

-- Behind its `await`, with the values of the closure.
unfoldable pub on_generated : Option Asked → Script → Agents → Agents
on_generated none s a = a
on_generated (some k) s a = record a {
  script = s.script;
  script_os = or_platform s.platform k.platform;
  endpoint = s.endpoint;
  name = if is_empty (trim k.named) then trim k.address else a.name;
  status = success (ready_message k.platform);
  gen_busy = false;
  asked = none;
}

unfoldable pub on_generation_failed : Option Asked → Text → Agents → Agents
on_generation_failed none m a = a
on_generation_failed (some k) m a = record a { status = failure m; gen_busy = false; asked = none }

-- `handleTestForm` and `handleAdd`, up to their `await`.
unfoldable pub test_pressed_on : Agents → Agents × Effect
test_pressed_on a = if a.busy || is_empty (trim a.endpoint) then (a, quiet) else (
  record a { busy = true; status = info (codes "Test de connexion…"); waiting = some test },
  test_form (payload a),
)

unfoldable pub submit : Agents → Agents × Effect
submit a =
    if a.busy || (is_empty (trim a.name) || is_empty (trim a.endpoint)) then (a, quiet) else (
      record a { busy = true; status = info (codes "Enregistrement…"); waiting = some add },
      post_host (payload a),
    )

abbrev pub failed_with : Text → Status
failed_with m = failure (codes "Échec : " ++ m)

unfoldable pub form_status : Outcome → Status
form_status (tested true m) = success (codes "Connexion réussie ✓")
form_status (tested false m) = failed_with m
form_status (broken m) = failed_with m

unfoldable pub on_form_tested : Option Wait → Outcome → Agents → Agents
unfolding form_status
on_form_tested (some test) o a = record a { busy = false; status = form_status o; waiting = none }
on_form_tested _ o a = a

unfoldable pub on_added : Option Wait → Agents → Agents × Effect
on_added (some add) a = (record a { waiting = some list }, get_hosts)
on_added _ a = (a, quiet)

unfoldable pub on_add_failed : Option Wait → Text → Agents → Agents
on_add_failed (some add) m a = record a {
  busy = false;
  status = failure (or_text m (codes "Échec de l'enregistrement"));
  waiting = none;
}
on_add_failed _ m a = a

-- `fetchHosts` is never rejected; `handleAdd` goes on behind it.
unfoldable pub on_listed : Option Wait → Agents → Agents
on_listed (some list) a = record a {
  name = [];
  endpoint = [];
  tls_ca = [];
  tls_cert = [];
  tls_key = [];
  busy = false;
  status = success (codes "Hôte enregistré.");
  waiting = none;
}
on_listed _ a = a

unfoldable pub test_of : Outcome → Test
test_of (tested true m) = passed
test_of (tested false m) = failed m
test_of (broken m) = failed m

unfoldable pub step : Agents → Event → Agents × Effect
step a (name_typed v) = (record a { name = v }, quiet)
step a (endpoint_typed v) = (record a { endpoint = v }, quiet)
step a (ca_typed v) = (record a { tls_ca = v }, quiet)
step a (cert_typed v) = (record a { tls_cert = v }, quiet)
step a (key_typed v) = (record a { tls_key = v }, quiet)
step a (addr_typed v) = (record a { ssh_addr = v }, quiet)
step a (port_typed v) = (record a { ssh_port = v }, quiet)
step a (user_typed v) = (record a { ssh_user = v }, quiet)
step a (from_typed v) = (record a { from_ip = v }, quiet)
step a (mode_chosen m) = (record a { mode = m }, quiet)
step a (os_chosen p) = (record a { target_os = p }, quiet)
step a generate_pressed = generate a
step a (generated s) = (on_generated a.asked s a, quiet)
step a (generation_failed m) = (on_generation_failed a.asked m a, quiet)
step a test_pressed = test_pressed_on a
step a (form_tested o) = (on_form_tested a.waiting o a, quiet)
step a submitted = submit a
step a added = on_added a.waiting a
step a (add_failed m) = (on_add_failed a.waiting m a, quiet)
step a listed = (on_listed a.waiting a, quiet)
step a status_faded = (record a { status = silent }, quiet)
step a (row_pressed n) = (record a { results = (n, loading) ∷ a.results }, test_host n)
step a (row_tested n o) = (record a { results = (n, test_of o) ∷ a.results }, quiet)

unfoldable pub run : Agents → List Event → Agents
run a [] = a
run a (e ∷ es) = run (step a e).0 es

-- The cell of a host.
pub data Cell : Type 0 where
  spinner ok dash : Cell
  refused : Text → Cell

abbrev pub result_of : ℕ → List (ℕ × Test) → Option Test
result_of h [] = none
result_of h ((n, t) ∷ rs) = if n == h then some t else result_of h rs

unfoldable pub cell_of : Option Test → Cell
cell_of none = dash
cell_of (some loading) = spinner
cell_of (some passed) = ok
cell_of (some (failed m)) = refused m

unfoldable pub cell : ℕ → Agents → Cell
unfolding cell_of
cell h a = cell_of (result_of h a.results)

-- `isSSH`, by which the advanced form chooses its fields.
unfoldable pub is_ssh : Agents → Bool
is_ssh a = has_prefix (trim a.endpoint) (codes "ssh://")
