-- ===== src/Users/Tests.antt =====
-- Two invitations that overlap.
use safe_dock.Common.{◌≡◌, refl, true, false, none, some, List, [], ◌∷◌, codes}
use safe_dock.Common.Flight.{pick}
use safe_dock.PasswordPolicy.{is_space}
use safe_dock.Trim.{trim}
use safe_dock.Users.{
  User, viewer, Event, initial, email_typed, user_submitted, tag_typed, tag_submitted,
  reset_mfa_pressed, answered, done, failed, create_tag, finish, on_reply, step, run, name_of,
}
use safe_dock.Users.Invitations.{see, see_all, run-invite}

name_of_first : name_of (codes "Ada ") [] (codes "ada@dock") ≡ codes "Ada"
unfolding name_of trim is_space
name_of_first = refl

abbrev bob : User
bob = record {
  id = 7;
  username = codes "bob@dock";
  first_name = [];
  last_name = [];
  role = viewer;
  scope_all = false;
  allowed_tags = none;
  allowed_hosts = none;
}

-- The reset of Bob is answered before the creation of Ada, while the next name is typed.
abbrev busy : List Event
busy =
    email_typed (codes "ada@dock")
    ∷ user_submitted
    ∷ tag_typed (codes "web")
    ∷ tag_submitted
    ∷ reset_mfa_pressed bob
    ∷ email_typed (codes "eve@dock")
    ∷ answered 2 (done (codes "https://dock/b") true)
    ∷ answered 0 (done (codes "https://dock/a") false)
    ∷ answered 0 (failed (codes "refus"))
    ∷ []

busy_invites :
    (see_all initial (record { asked = []; invitation = none }) busy).invitation
    ≡ some (record { email = codes "ada@dock"; link = codes "https://dock/a"; email_sent = false })
unfolding see_all see step create_tag trim is_space pick on_reply finish
busy_invites = refl

run-invite_example :
    (run initial busy).invite
    ≡ (see_all initial (record { asked = []; invitation = none }) busy).invitation
run-invite_example = run-invite busy
