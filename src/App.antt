-- ===== src/App.antt =====
-- internal/web/frontend/src/App.jsx: the pages and their addresses, and the session. The containers
-- and the statistics are computed in Fleet; what is put on the screen is in the child Screens.
pub mod Routing
pub mod Screens
pub mod Access
pub mod Sidebar
mod Tests
use safe_dock.Common.{
  ℕ, List, [], ◌∷◌, ◌++◌, Bool, true, false, not, ◌&&◌, ◌||◌, Option, none, some, String, Text,
  codes, text_eq, str_eq, ◌==◌, if◌then◌else◌, find, any,
}
use safe_dock.Common.Decimal.{decimal}
use safe_dock.Fleet.{RawContainer, Container, process_all}

-- The identifiers of the pages; `not_found` is '404'.
pub data Page : Type 0 where
  dashboard containers audit watch notifications account settings container_settings actions agents
        container_detail exceptions users compliance not_found :
      Page

unfoldable pub page_id : Page → Text
page_id dashboard = codes "dashboard"
page_id containers = codes "containers"
page_id audit = codes "audit"
page_id watch = codes "watch"
page_id notifications = codes "notifications"
page_id account = codes "account"
page_id settings = codes "settings"
page_id container_settings = codes "container-settings"
page_id actions = codes "actions"
page_id agents = codes "agents"
page_id container_detail = codes "container-detail"
page_id exceptions = codes "exceptions"
page_id users = codes "users"
page_id compliance = codes "compliance"
page_id not_found = codes "404"

-- `validPages`
abbrev pub valid_pages : List Page
valid_pages =
    dashboard ∷ containers ∷ audit ∷ watch ∷ notifications ∷ account ∷ settings ∷ container_settings
    ∷ actions ∷ agents ∷ container_detail ∷ exceptions ∷ users ∷ compliance ∷ []

-- `s.replace('/', '')`: without the first slash.
unfoldable pub without_slash : Text → Text
without_slash [] = []
without_slash (c ∷ s) = if c == b'/' then s else c ∷ without_slash s

-- `validPages.includes(path) ? path : '404'`
page_named : List Page → Text → Page
page_named [] path = not_found
page_named (p ∷ ps) path = if text_eq (page_id p) path then p else page_named ps path

-- `getPageFromPathname`
unfoldable pub page_of_pathname : Text → Page
unfolding page_named
page_of_pathname pathname = elim (without_slash pathname) [
  | [] ↦ dashboard
  | c ∷ s ↦ page_named valid_pages (c ∷ s)
]

-- What `handleNavigate` pushes on the history.
unfoldable pub path_of : Page → Text
path_of dashboard = codes "/"
path_of p = b'/' ∷ page_id p

-- The roles of the server; any other text is `other`.
pub data Role : Type 0 where
  viewer auditor admin other : Role

-- What is read of the answer of /api/session.
pub record Profile : Type 0 where
  pub role : Role
  pub must_change_password : Bool

pub record App : Type 0 where
  pub needs_setup : Option Bool
  pub authed : Option Bool
  pub me : Option Profile
  pub pathname : Text
  pub active_page : Page
  pub selected : Option String
  pub containers : List Container

-- The state before the first answer, at an address.
abbrev pub start : Text → App
start pathname = record {
  needs_setup = none;
  authed = none;
  me = none;
  pathname = pathname;
  active_page = page_of_pathname pathname;
  selected = none;
  containers = [];
}

-- `role === 'admin'`
unfoldable pub is_admin_role : Role → Bool
is_admin_role admin = true
is_admin_role _ = false

unfoldable pub is_admin : Option Profile → Bool
is_admin none = false
is_admin (some p) = is_admin_role p.role

-- An answer to a request for JSON, as `handleJson` and the `catch` behind it take it: 401, a value,
-- or anything that ends in the `catch`.
pub data Answer (A : Type 0) : Type 0 where
  unauthorized : Answer A
  json : A → Answer A
  broken : Answer A

pub data Event : Type 0 where
  -- /api/setup/status has answered: `needs_setup`, if the answer could be read.
  setup_status : Option Bool → Event
  -- /api/session has answered: the profile if `authenticated`.
  session : Option Profile → Event
  session_failed : Event
  -- /api/containers has answered.
  fetched_containers : Answer (Option (List RawContainer)) → Event
  -- Any other request of App.jsx or of lib/session.js has been answered with 401.
  expired : Event
  -- /api/logout has come to an end.
  logged_out : Event
  setup_completed : Event
  navigated : Page → Event
  selected_container : String → Event
  -- The user went back or forward to an address.
  popped : Text → Event

keeps_selection : Page → Bool
keeps_selection container_settings = true
keeps_selection container_detail = true
keeps_selection _ = false

-- `handleNavigate`
unfoldable pub navigate : Page → App → App
unfolding keeps_selection
navigate p a = record a {
  pathname = path_of p;
  active_page = p;
  selected = if keeps_selection p then a.selected else none;
}

-- `checkSession`, behind the answer: a profile that is not authenticated is forgotten.
unfoldable pub on_session : Option Profile → App → App
on_session none a = record a { me = none; authed = some false }
on_session (some p) a = record a { me = some p; authed = some true }

-- `d => setNeedsSetup(!!d.needs_setup)`, or false behind the `catch`
abbrev pub or_false : Option Bool → Bool
or_false none = false
or_false (some b) = b

unfoldable pub step : App → Event → App
step a (setup_status o) = record a { needs_setup = some (or_false o) }
step a (session o) = on_session o a
step a session_failed = record a { authed = some false }
step a (fetched_containers unauthorized) = record a { authed = some false }
step a (fetched_containers (json o)) = record a { containers = process_all o }
step a (fetched_containers broken) = a
step a expired = record a { authed = some false }
step a logged_out = record a { authed = some false }
step a setup_completed = record a { needs_setup = some false }
step a (navigated p) = navigate p a
step a (selected_container id) = navigate container_detail (record a { selected = some id })
step a (popped pathname) = record a { pathname = pathname; active_page = page_of_pathname pathname }

unfoldable pub run : App → List Event → App
run a [] = a
run a (e ∷ es) = run (step a e) es
