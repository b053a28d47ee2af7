-- ===== src/Setup.antt =====
-- internal/web/frontend/src/components/SetupView.jsx: the assistant of the first start, which creates
-- the first administrator. A handler runs up to its `await`; what comes behind it is run with the
-- reply. Not modelled: the picture of the QR code (a library) and the copy buttons.
pub mod Gate
pub mod Entry
pub mod Requests
mod Tests
use safe_dock.Common.{
  ℕ, List, [], ◌∷◌, Bool, true, false, not, ◌&&◌, ◌||◌, Option, none, some, Text, codes, is_empty,
  text_eq, ◌==◌, if◌then◌else◌, length, take, keep,
}
use safe_dock.PasswordPolicy.{check_password, weak_message, is_digit}
use safe_dock.Trim.{trim}
use safe_dock.Http.{Body, Reply, Outcome, good, bad, outcome_of}

pub data Phase : Type 0 where
  token_entry identity enroll backup done : Phase

-- The `await` that a handler stands at.
pub data Wait : Type 0 where
  start complete setup_mfa verify : Wait

pub record Setup : Type 0 where
  pub phase : Phase
  pub token : Text
  pub email : Text
  pub first_name : Text
  pub last_name : Text
  pub password : Text
  pub confirm : Text
  pub code : Text
  pub secret : Text
  pub qr_source : Text
  pub backup_codes : List Text
  pub busy : Bool
  pub error : Text
  pub waiting : Option Wait

-- The state at an address with the parameter `token`, which is empty where it is missing.
abbrev pub initial : Text → Setup
initial token = record {
  phase = token_entry;
  token = token;
  email = [];
  first_name = [];
  last_name = [];
  password = [];
  confirm = [];
  code = [];
  secret = [];
  qr_source = [];
  backup_codes = [];
  busy = false;
  error = [];
  waiting = none;
}

-- What a step does outside the component: a request, or `onComplete`.
pub data Effect : Type 0 where
  quiet : Effect
  post_start : Text → Effect
  post_complete : (token email first_name last_name password : Text) → Effect
  post_setup_mfa : Effect
  post_verify : Text → Effect
  on_complete : Effect

abbrev mismatch_message : Text
mismatch_message = codes "Les mots de passe ne correspondent pas."

-- `setBusy(true); setError('')`, up to the `await`
abbrev begin : Wait → Setup → Setup
begin w l = record l { busy = true; error = []; waiting = some w }

-- `setError(…)` and `finally { setBusy(false) }`
abbrev fail : Text → Setup → Setup
fail message l = record l { busy = false; error = message; waiting = none }

-- `finally { setBusy(false) }`
abbrev finish : Setup → Setup
finish l = record l { busy = false; waiting = none }

submit_token : Setup → Setup × Effect
submit_token l =
    if is_empty (trim l.token) then (l, quiet) else (begin start l, post_start (trim l.token))

submit_identity : Setup → Setup × Effect
submit_identity l =
    if not (check_password (some l.password)).ok
    then (record l { error = weak_message }, quiet)
    else (if not (text_eq l.password l.confirm)
        then (record l { error = mismatch_message }, quiet)
        else (
          begin complete l,
          post_complete (trim l.token) (trim l.email) l.first_name l.last_name l.password,
        ))

submit_code : Setup → Setup × Effect
submit_code l =
    if not (length l.code == 6) then (l, quiet) else (begin verify l, post_verify l.code)

-- The button of each form is disabled while a request runs, and so then is the form; and by the
-- condition of the phase. The buttons of the last two phases never are.
unfoldable pub is_disabled : Setup → Bool
is_disabled l = elim l.phase [
  | token_entry ↦ l.busy || is_empty (trim l.token)
  | identity ↦
      l.busy
      || is_empty (trim l.email)
      || not (check_password (some l.password)).ok
      || is_empty l.confirm
  | enroll ↦ l.busy || not (length l.code == 6)
  | backup ↦ false
  | done ↦ false
]

-- The form, or the button, that the phase shows.
submit_form : Phase → Setup → Setup × Effect
submit_form token_entry l = submit_token l
submit_form identity l = submit_identity l
submit_form enroll l = submit_code l
submit_form backup l = (l, on_complete)
submit_form done l = (l, on_complete)

-- What stands behind each `await`, when the answer is a success.
continue : Wait → Body → Setup → Setup × Effect
continue start b l = (finish (record l { phase = identity }), quiet)
continue complete b l = (record l { waiting = some setup_mfa }, post_setup_mfa)
continue setup_mfa b l = (
  finish (record l { secret = b.secret; qr_source = b.otpauth_uri; code = []; phase = enroll }),
  quiet,
)
continue verify b l = elim b.backup_codes [
  | [] ↦ (finish (record l { backup_codes = []; phase = done }), quiet)
  | c ∷ cs ↦ (finish (record l { backup_codes = c ∷ cs; phase = backup }), quiet)
]

on_outcome : Wait → Outcome → Setup → Setup × Effect
on_outcome w (bad message) l = (fail message l, quiet)
on_outcome w (good b) l = continue w b l

-- A reply that nothing waits for does nothing.
on_reply : Option Wait → Reply → Setup → Setup × Effect
on_reply none r l = (l, quiet)
on_reply (some w) r l = on_outcome w (outcome_of r) l

-- Typing is admitted in every phase, also where the field is not shown.
pub data Event : Type 0 where
  token_typed email_typed first_name_typed last_name_typed password_typed confirm_typed code_typed :
      Text → Event
  submitted : Event
  replied : Reply → Event

unfoldable pub step : Setup → Event → Setup × Effect
unfolding submit_form submit_token submit_identity submit_code on_reply on_outcome continue
step l (token_typed v) = (record l { token = v }, quiet)
step l (email_typed v) = (record l { email = v }, quiet)
step l (first_name_typed v) = (record l { first_name = v }, quiet)
step l (last_name_typed v) = (record l { last_name = v }, quiet)
step l (password_typed v) = (record l { password = v }, quiet)
step l (confirm_typed v) = (record l { confirm = v }, quiet)
step l (code_typed v) = (record l { code = take 6 (keep is_digit v) }, quiet)
step l submitted = if is_disabled l then (l, quiet) else submit_form l.phase l
step l (replied r) = on_reply l.waiting r l
