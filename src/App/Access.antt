-- ===== src/App/Access.antt =====
-- Who sees what of App.jsx.
use safe_dock.Common.{
  ◌≡◌, ◌≢◌, arith, List, [], ◌∷◌, Bool, true, false, Option, none, some, any, ◌⊎◌, not, ◌&&◌,
}
use safe_dock.App.{
  App, Event, Profile, admin, is_admin, or_false, step, on_session, session, session_failed,
  fetched_containers, unauthorized, expired, logged_out, agents, users, settings,
}
use safe_dock.App.Screens.{
  Content, view, Endpoint, hosts, users_, security_audit, fetch_all_data, on_authed,
}

-- An observer of the answers: the profile of the last answer of /api/session, unless it failed or
-- was followed by a 401 or a logout.
abbrev pub grant : Option Profile → Event → Option Profile
grant g (session o) = o
grant g session_failed = none
grant g (fetched_containers unauthorized) = none
grant g expired = none
grant g logged_out = none
grant g _ = g

abbrev pub grants : Option Profile → List Event → Option Profile
grants g [] = g
grants g (e ∷ es) = grants (grant g e) es

-- The state knows the grant.
abbrev Knows : App → Option Profile → Type 0
Knows a g = or_false a.authed ≡ true → a.me ≡ g × (a.me ≢ none)

-- The views of the three pages that are for administrators only.
unfoldable pub is_reserved : Content → Bool
is_reserved (view agents) = true
is_reserved (view users) = true
is_reserved (view settings) = true
is_reserved _ = false

-- What lets a content be shown to the one who was granted a session.
abbrev pub MaySee : Option Profile → Content → Type 0
MaySee g c =
    (p : Profile) × (g ≡ some p)
    × (p.must_change_password ≡ false)
    × ((is_reserved c ≡ false) ⊎ (p.role ≡ admin))

unfoldable pub is_admin_endpoint : Endpoint → Bool
is_admin_endpoint hosts = true
is_admin_endpoint users_ = true
is_admin_endpoint security_audit = true
is_admin_endpoint _ = false

fetch_all_data-role :
    (me : Option Profile) → any is_admin_endpoint (fetch_all_data me) ≡ is_admin me
unfolding fetch_all_data is_admin_endpoint
fetch_all_data-role me = ground arith

-- When a session begins, the addresses for administrators are asked exactly if the profile that the
-- server has just sent is an administrator's; none of them is asked by an answer of /api/session
-- that finds a session already open.
on_authed-is_admin :
    (a : App) (p : Profile)
    → any is_admin_endpoint (on_authed a (step a (session (some p))))
      ≡ (is_admin (some p) && not (or_false a.authed))
unfolding on_authed step on_session
on_authed-is_admin a p = ground (arith, fetch_all_data-role (some p))
