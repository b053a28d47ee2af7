-- ===== src/App/Tests.antt =====
-- Sessions of the console.
use safe_dock.Common.{false, some, List, [], ◌∷◌, codes}
use safe_dock.App.{
  Event, agents, Profile, admin, setup_status, session, navigated, selected_container, popped,
}

abbrev administrator : Profile
administrator = record { role = admin; must_change_password = false }

-- The administrator opens a container, goes on to the hosts and back in the history.
abbrev visit : List Event
visit =
    setup_status (some false)
    ∷ session (some administrator)
    ∷ selected_container "c1"
    ∷ navigated agents
    ∷ popped (codes "/container-detail")
    ∷ navigated agents
    ∷ []
