-- ===== src/App/Screens.antt =====
-- What App.jsx puts on the screen and what it asks the server for when a session begins.
use safe_dock.Common.{
  List, [], ◌∷◌, ◌++◌, Bool, true, false, not, ◌&&◌, ◌||◌, Option, none, some, codes, text_eq,
  if◌then◌else◌,
}
use safe_dock.App.{Page, settings, agents, users, Profile, App, is_admin, or_false}

-- What the view router shows behind the gates: the view of a page, or `AccessDenied`.
pub data Content : Type 0 where
  view : Page → Content
  access_denied : Content

unfoldable pub content_of : Bool → Page → Content
content_of admin_here agents = if admin_here then view agents else access_denied
content_of admin_here users = if admin_here then view users else access_denied
content_of admin_here settings = if admin_here then view settings else access_denied
content_of admin_here p = view p

pub data Screen : Type 0 where
  loading setup_view invite_view login_view forced_change : Screen
  shell : Content → Screen

unfoldable pub is_unknown : Option Bool → Bool
is_unknown none = true
is_unknown (some b) = false

unfoldable pub must_change : Option Profile → Bool
must_change none = false
must_change (some p) = p.must_change_password

-- The returns of `App`, in their order.
unfoldable pub screen : App → Screen
unfolding is_unknown must_change
screen a =
    if is_unknown a.needs_setup || is_unknown a.authed
    then loading
    else (if or_false a.needs_setup
        then setup_view
        else (if text_eq a.pathname (codes "/invite")
            then invite_view
            else (if not (or_false a.authed)
                then login_view
                else (if must_change a.me
                    then forced_change
                    else shell (content_of (is_admin a.me) a.active_page)))))

-- The addresses that `fetchAllData` asks.
pub data Endpoint : Type 0 where
  config_ containers_ audit_logs registries overrides exceptions_ tags assignments notifications_
        hosts users_ security_audit :
      Endpoint

unfoldable pub fetch_all_data : Option Profile → List Endpoint
fetch_all_data me =
    let for_all =
      config_ ∷ containers_ ∷ audit_logs ∷ registries ∷ overrides ∷ exceptions_ ∷ tags ∷ assignments
      ∷ notifications_ ∷ [] in
    if is_admin me then for_all ++ (hosts ∷ users_ ∷ security_audit ∷ []) else for_all

-- The effect on `authed`: what is asked at once when a step has changed it to true.
unfoldable pub on_authed : App → App → List Endpoint
on_authed before after =
    if or_false after.authed && not (or_false before.authed) then fetch_all_data after.me else []
