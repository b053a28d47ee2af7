-- ===== src/App/Routing.antt =====
-- The address and the page of App.jsx.
use safe_dock.Common.{◌≡◌, refl, List, [], ◌∷◌, Text}
use safe_dock.App.{
  App, Event, Page, dashboard, containers, audit, watch, notifications, account, settings,
  container_settings, actions, agents, container_detail, exceptions, users, compliance, not_found,
  page_id, page_of_pathname, page_named, without_slash, path_of, start, step, navigate, on_session,
  run, setup_status, session, session_failed, fetched_containers, unauthorized, json, broken,
  expired, logged_out, setup_completed, navigated, selected_container, popped,
}
use safe_dock.Common.{text_eq, none, some}

-- Loading the address that the console shows for a page again gives that page.
pub page_of_pathname-path_of : (p : Page) → page_of_pathname (path_of p) ≡ p
unfolding page_of_pathname page_named without_slash path_of page_id text_eq
page_of_pathname-path_of dashboard = refl
page_of_pathname-path_of containers = refl
page_of_pathname-path_of audit = refl
page_of_pathname-path_of watch = refl
page_of_pathname-path_of notifications = refl
page_of_pathname-path_of account = refl
page_of_pathname-path_of settings = refl
page_of_pathname-path_of container_settings = refl
page_of_pathname-path_of actions = refl
page_of_pathname-path_of agents = refl
page_of_pathname-path_of container_detail = refl
page_of_pathname-path_of exceptions = refl
page_of_pathname-path_of users = refl
page_of_pathname-path_of compliance = refl
page_of_pathname-path_of not_found = refl

-- The page is the one that the address names.
abbrev IsInStep : App → Type 0
IsInStep a = page_of_pathname a.pathname ≡ a.active_page

step-IsInStep : (a : App) (e : Event) → IsInStep a → IsInStep (step a e)
unfolding step navigate on_session
step-IsInStep a (setup_status o) h = h
step-IsInStep a (session none) h = h
step-IsInStep a (session (some p)) h = h
step-IsInStep a session_failed h = h
step-IsInStep a (fetched_containers unauthorized) h = h
step-IsInStep a (fetched_containers (json o)) h = h
step-IsInStep a (fetched_containers broken) h = h
step-IsInStep a expired h = h
step-IsInStep a logged_out h = h
step-IsInStep a setup_completed h = h
step-IsInStep a (navigated p) h = page_of_pathname-path_of p
step-IsInStep a (selected_container id) h = page_of_pathname-path_of container_detail
step-IsInStep a (popped pathname) h = refl

run-IsInStep : (es : List Event) (a : App) → IsInStep a → IsInStep (run a es)
unfolding run
run-IsInStep [] a h = h
run-IsInStep (e ∷ es) a h = run-IsInStep es (step a e) (step-IsInStep a e h)

-- At every moment of every session the page that is shown is the one that the address names, so
-- that reloading, or sending the address to someone, gives the same page.
run-active_page :
    (pathname : Text) (es : List Event)
    → page_of_pathname (run (start pathname) es).pathname ≡ (run (start pathname) es).active_page
run-active_page pathname es = run-IsInStep es (start pathname) refl
