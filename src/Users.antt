-- ===== src/Users.antt =====
-- The accounts of internal/web/frontend/src/components/UsersView.jsx: invitations, resets, roles and
-- tags, and the lines of the table. The clipboard and the journal are not modelled; the editor of
-- scopes is Scope. Each request keeps in its closure whom it is about.
pub mod Invitations
mod Tests
use safe_dock.Common.{
  ℕ, zero, suc, List, [], ◌∷◌, ◌++◌, Bool, true, false, not, ◌&&◌, ◌||◌, Option, none, some, Text,
  codes, is_empty, ◌==◌, if◌then◌else◌, length,
}
use safe_dock.Common.Flight.{pick}
use safe_dock.Common.Decimal.{decimal}
use safe_dock.Trim.{trim}

pub data Role : Type 0 where
  admin auditor viewer : Role

-- `nu`
pub record NewUser : Type 0 where
  pub email : Text
  pub first_name : Text
  pub last_name : Text
  pub role : Role
  pub scope_all : Bool

abbrev pub blank : NewUser
blank = record { email = []; first_name = []; last_name = []; role = viewer; scope_all = false }

-- `invite`
pub record Invite : Type 0 where
  pub email : Text
  pub link : Text
  pub email_sent : Bool

-- A request on its way, with what its closure needs.
pub data Request : Type 0 where
  creation mfa_reset : (email : Text) → Request
  password_reset deletion role_change tag_creation tag_deletion : Request

pub record Users : Type 0 where
  pub nu : NewUser
  pub msg : Text
  pub tag_name : Text
  pub invite : Option Invite
  pub running : List Request

abbrev pub initial : Users
initial = record { nu = blank; msg = []; tag_name = []; invite = none; running = [] }

-- An item of `users`.
pub record User : Type 0 where
  pub id : ℕ
  pub username : Text
  pub first_name : Text
  pub last_name : Text
  pub role : Role
  pub scope_all : Bool
  pub allowed_tags : Option (List ℕ)
  pub allowed_hosts : Option (List ℕ)

pub data Effect : Type 0 where
  quiet : Effect
  post_user : NewUser → Effect
  post_reset_mfa post_delete : ℕ → Effect
  post_password : ℕ → Text → Effect
  post_role : ℕ → Role → Effect
  post_tag : Text → Effect
  post_tag_delete : ℕ → Effect

-- A request ends with a link, which can be missing, and whether it was sent, or with a message.
pub data Reply : Type 0 where
  done : Text → Bool → Reply
  failed : Text → Reply

pub data Event : Type 0 where
  email_typed first_name_typed last_name_typed tag_typed : Text → Event
  role_chosen : Role → Event
  scope_all_checked : Bool → Event
  user_submitted tag_submitted invite_closed msg_faded : Event
  reset_mfa_pressed delete_pressed : User → Event
  -- The prompt of a new password, `none` if it is cancelled.
  password_given : User → Option Text → Event
  role_set : User → Role → Event
  tag_deleted : ℕ → Event
  -- The request with this number, among those on their way, comes to its end.
  answered : ℕ → Reply → Event

abbrev pub begin : Request → Users → Users
begin r u = record u { running = u.running ++ r ∷ [] }

-- `createTag`, up to its `await`
unfoldable pub create_tag : Users → Users × Effect
create_tag u =
    if is_empty (trim u.tag_name)
    then (u, quiet)
    else (begin tag_creation u, post_tag (trim u.tag_name))

-- `resetPw`: a prompt that is cancelled or left empty does nothing.
unfoldable pub reset_password : User → Option Text → Users → Users × Effect
reset_password who none u = (u, quiet)
reset_password who (some []) u = (u, quiet)
reset_password who (some (c ∷ p)) u = (begin password_reset u, post_password who.id (c ∷ p))

-- What stands behind the `await` of each request.
unfoldable pub finish : Request → Reply → Users → Users
finish r (failed m) u = record u { msg = m }
finish (creation e) (done link sent) u = record u {
  invite = some (record { email = e; link = link; email_sent = sent });
  nu = blank;
}
finish (mfa_reset e) (done link sent) u = record u {
  invite = some (record { email = e; link = link; email_sent = sent });
}
finish password_reset (done link sent) u = record u {
  msg = codes "Mot de passe réinitialisé (changement imposé au login).";
}
finish deletion (done link sent) u = record u { msg = codes "Supprimé." }
finish role_change (done link sent) u = record u { msg = codes "Rôle mis à jour." }
finish tag_creation (done link sent) u = record u { tag_name = []; msg = codes "Tag créé." }
finish tag_deletion (done link sent) u = record u { msg = codes "Tag supprimé." }

unfoldable pub on_reply : Option Request → List Request → Reply → Users → Users
unfolding finish
on_reply none rest a u = u
on_reply (some r) rest a u = finish r a (record u { running = rest })

unfoldable pub step : Users → Event → Users × Effect
step u (email_typed v) = (record u { nu = record u.nu { email = v } }, quiet)
step u (first_name_typed v) = (record u { nu = record u.nu { first_name = v } }, quiet)
step u (last_name_typed v) = (record u { nu = record u.nu { last_name = v } }, quiet)
step u (tag_typed v) = (record u { tag_name = v }, quiet)
step u (role_chosen r) = (record u { nu = record u.nu { role = r } }, quiet)
step u (scope_all_checked b) = (record u { nu = record u.nu { scope_all = b } }, quiet)
step u user_submitted = (begin (creation u.nu.email) u, post_user u.nu)
step u tag_submitted = create_tag u
step u invite_closed = (record u { invite = none }, quiet)
step u msg_faded = (record u { msg = [] }, quiet)
step u (reset_mfa_pressed who) = (begin (mfa_reset who.username) u, post_reset_mfa who.id)
step u (delete_pressed who) = (begin deletion u, post_delete who.id)
step u (password_given who p) = reset_password who p u
step u (role_set who r) = (begin role_change u, post_role who.id r)
step u (tag_deleted n) = (begin tag_deletion u, post_tag_delete n)
step u (answered n a) = let (found, rest) = pick n u.running in (on_reply found rest a u, quiet)

unfoldable pub run : Users → List Event → Users
run u [] = u
run u (e ∷ es) = run (step u e).0 es

-- A line of the table: the name, whether it is one's own, the scope, and what can be pressed.
pub record Line : Type 0 where
  pub shown : Text
  pub is_own : Bool
  pub scope : Text
  pub can_scope : Bool
  pub can_delete : Bool

-- `[a, b].filter(Boolean).join(' ').trim() || c`
unfoldable pub name_of : (first_name last_name username : Text) → Text
name_of [] last username = if is_empty (trim last) then username else trim last
name_of (c ∷ first) [] username = if is_empty (trim (c ∷ first)) then username else trim (c ∷ first)
name_of (c ∷ first) (d ∷ last) username =
    let full = trim ((c ∷ first) ++ (b' ' ∷ d ∷ last)) in if is_empty full then username else full

abbrev sees_all : User → Bool
sees_all u = elim u.role [ admin ↦ true | _ ↦ u.scope_all ]

abbrev count_of : Option (List ℕ) → ℕ
count_of none = 0
count_of (some xs) = length xs

unfoldable pub line_of : ℕ → User → Line
unfolding name_of
line_of me u = record {
  shown = name_of u.first_name u.last_name u.username;
  is_own = u.id == me;
  scope =
      if sees_all u
      then codes "tout le parc"
      else decimal (count_of u.allowed_tags)
        ++ (codes " tag(s) · " ++ (decimal (count_of u.allowed_hosts) ++ codes " hôte(s)"));
  can_scope = not (sees_all u);
  can_delete = not (u.id == me);
}
