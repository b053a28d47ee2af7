-- ===== src/Invite.antt =====
-- internal/web/frontend/src/components/InviteView.jsx: the public page that a link of invitation
-- opens. A handler runs up to its `await`; what comes behind it is run with the reply. Not modelled:
-- the picture of the QR code (a library) and the copy buttons.
pub mod Gate
mod Tests
use safe_dock.Common.{
  ℕ, List, [], ◌∷◌, Bool, true, false, not, ◌&&◌, ◌||◌, Option, none, some, Text, codes, is_empty,
  text_eq, ◌==◌, if◌then◌else◌, length, take, keep,
}
use safe_dock.PasswordPolicy.{check_password, weak_message, is_digit}
use safe_dock.Http.{Body, Reply, Outcome, good, bad, outcome_of}

pub data Phase : Type 0 where
  loading invalid password enroll backup done : Phase

-- The request that an answer is awaited of.
pub data Wait : Type 0 where
  check accept verify : Wait

pub record Invite : Type 0 where
  pub token : Text
  pub phase : Phase
  pub email : Text
  pub first_name : Text
  pub password : Text
  pub confirm : Text
  pub code : Text
  pub secret : Text
  pub qr_source : Text
  pub backup_codes : List Text
  pub busy : Bool
  pub error : Text
  pub waiting : Option Wait

-- What a step does outside the component.
pub data Effect : Type 0 where
  quiet : Effect
  get_invite : Text → Effect
  post_accept : (token password : Text) → Effect
  post_verify : (token code : Text) → Effect

-- The first state at an address with the parameter `token`, which is empty where it is missing, and
-- the effect that runs then: without a token the link is invalid at once.
unfoldable pub initial : Text → Invite × Effect
initial token =
    let l : Invite = record {
      token = token;
      phase = loading;
      email = [];
      first_name = [];
      password = [];
      confirm = [];
      code = [];
      secret = [];
      qr_source = [];
      backup_codes = [];
      busy = false;
      error = [];
      waiting = none;
    } in
    if is_empty token
    then (record l { phase = invalid }, quiet)
    else (record l { waiting = some check }, get_invite token)

abbrev mismatch_message : Text
mismatch_message = codes "Les mots de passe ne correspondent pas"

-- `setBusy(true); setError('')`, up to the `await`
abbrev begin : Wait → Invite → Invite
begin w l = record l { busy = true; error = []; waiting = some w }

-- `finally { setBusy(false) }`
abbrev finish : Invite → Invite
finish l = record l { busy = false; waiting = none }

submit_password : Invite → Invite × Effect
submit_password l =
    if not (check_password (some l.password)).ok
    then (record l { error = weak_message }, quiet)
    else (if not (text_eq l.password l.confirm)
        then (record l { error = mismatch_message }, quiet)
        else (begin accept l, post_accept l.token l.password))

submit_code : Invite → Invite × Effect
submit_code l =
    if not (length l.code == 6) then (l, quiet) else (begin verify l, post_verify l.token l.code)

-- Whether the button of the phase is disabled, or is not there.
unfoldable pub is_disabled : Invite → Bool
is_disabled l = elim l.phase [
  | loading ↦ true
  | invalid ↦ true
  | password ↦ l.busy || not (check_password (some l.password)).ok || is_empty l.confirm
  | enroll ↦ l.busy || not (length l.code == 6)
  | backup ↦ false
  | done ↦ true
]

-- The form, or the button, that the phase shows.
submit_form : Phase → Invite → Invite × Effect
submit_form password l = submit_password l
submit_form enroll l = submit_code l
submit_form backup l = (record l { phase = done }, quiet)
submit_form _ l = (l, quiet)

-- What stands behind each `await`, when the answer is a success.
continue : Wait → Body → Invite → Invite
continue check b l = record l {
  email = b.email;
  first_name = b.first_name;
  phase = password;
  waiting = none;
}
continue accept b l =
    finish (record l { secret = b.secret; qr_source = b.otpauth_uri; phase = enroll })
continue verify b l = elim b.backup_codes [
  | [] ↦ finish (record l { backup_codes = []; phase = done })
  | c ∷ cs ↦ finish (record l { backup_codes = c ∷ cs; phase = backup })
]

-- The `catch` of each request: of the first one, only the phase tells.
on_failure : Wait → Text → Invite → Invite
on_failure check message l = record l { phase = invalid; waiting = none }
on_failure _ message l = record l { busy = false; error = message; waiting = none }

on_outcome : Wait → Outcome → Invite → Invite
on_outcome w (bad message) l = on_failure w message l
on_outcome w (good b) l = continue w b l

-- A reply that nothing waits for does nothing.
on_reply : Option Wait → Reply → Invite → Invite
on_reply none r l = l
on_reply (some w) r l = on_outcome w (outcome_of r) l

-- Typing is admitted in every phase, also where the field is not shown.
pub data Event : Type 0 where
  password_typed confirm_typed code_typed : Text → Event
  submitted : Event
  replied : Reply → Event

unfoldable pub step : Invite → Event → Invite × Effect
unfolding submit_form submit_password submit_code on_reply on_outcome on_failure continue
step l (password_typed v) = (record l { password = v }, quiet)
step l (confirm_typed v) = (record l { confirm = v }, quiet)
step l (code_typed v) = (record l { code = take 6 (keep is_digit v) }, quiet)
step l submitted = if is_disabled l then (l, quiet) else submit_form l.phase l
step l (replied r) = (on_reply l.waiting r l, quiet)
