-- ===== src/Login.antt =====
-- internal/web/frontend/src/components/LoginView.jsx: the sign-in, with the enrolment of the second
-- factor and the changes of password that the server imposes. A handler runs up to its `await`; what
-- comes behind it is run with the reply. Not modelled: the picture of the QR code (a library) and
-- the copy button.
pub mod Gate
pub mod Entry
pub mod Retry
mod Tests
use safe_dock.Common.{
  ℕ, List, [], ◌∷◌, ◌++◌, Bool, true, false, not, ◌&&◌, ◌||◌, Option, none, some, Text, codes,
  is_empty, text_eq, ◌==◌, if◌then◌else◌, length, take, keep,
}
use safe_dock.PasswordPolicy.{check_password, weak_message, is_digit}
use safe_dock.Http.{Body, Reply, Outcome, good, bad, outcome_of}

pub data Phase : Type 0 where
  password setup_mustchange setup_enroll code backup mustchange : Phase

-- The `await` that a handler stands at, with what its closure keeps.
pub data Wait : Type 0 where
  login : Wait
  setup_password : Text → Wait
  setup_mfa : Wait
  verify : Wait
  new_password : Wait

pub record Login : Type 0 where
  pub phase : Phase
  pub username : Text
  pub password : Text
  pub new_pw : Text
  pub confirm_pw : Text
  pub must_change : Bool
  pub code : Text
  pub secret : Text
  pub qr_source : Text
  pub backup_codes : List Text
  pub busy : Bool
  pub error : Text
  pub waiting : Option Wait

abbrev pub initial : Login
initial = record {
  phase = password;
  username = [];
  password = [];
  new_pw = [];
  confirm_pw = [];
  must_change = false;
  code = [];
  secret = [];
  qr_source = [];
  backup_codes = [];
  busy = false;
  error = [];
  waiting = none;
}

-- What a step does outside the component: a request, or `onSuccess`.
pub data Effect : Type 0 where
  quiet : Effect
  post_login : (username password : Text) → Effect
  post_setup_password : Text → Effect
  post_setup_mfa : Effect
  post_verify : Text → Effect
  post_new_password : (current new : Text) → Effect
  on_success : Effect

abbrev mismatch_message : Text
mismatch_message = codes "Les mots de passe ne correspondent pas."

-- `setBusy(true); setError('')`, up to the `await`
abbrev begin : Wait → Login → Login
begin w l = record l { busy = true; error = []; waiting = some w }

-- `setError(…)` and `finally { setBusy(false) }`
abbrev fail : Text → Login → Login
fail message l = record l { busy = false; error = message; waiting = none }

-- `finally { setBusy(false) }`
abbrev finish : Login → Login
finish l = record l { busy = false; waiting = none }

submit_password : Login → Login × Effect
submit_password l =
    if is_empty l.password then (l, quiet) else (begin login l, post_login l.username l.password)

submit_setup_password : Login → Login × Effect
submit_setup_password l =
    if not (check_password (some l.new_pw)).ok
    then (record l { error = weak_message }, quiet)
    else (if not (text_eq l.new_pw l.confirm_pw)
        then (record l { error = mismatch_message }, quiet)
        else (begin (setup_password l.new_pw) l, post_setup_password l.new_pw))

submit_code : Login → Login × Effect
submit_code l = if is_empty l.code then (l, quiet) else (begin verify l, post_verify l.code)

submit_new_password : Login → Login × Effect
submit_new_password l =
    if not (check_password (some l.new_pw)).ok
    then (record l { error = weak_message }, quiet)
    else (begin new_password l, post_new_password l.password l.new_pw)

-- The button of each form is disabled while a request runs, and so then is the form; and by the
-- condition of the phase. The button of the backup codes never is.
unfoldable pub is_disabled : Login → Bool
is_disabled l = elim l.phase [
  | password ↦ l.busy || is_empty l.username || is_empty l.password
  | setup_mustchange ↦ l.busy || not (check_password (some l.new_pw)).ok || is_empty l.confirm_pw
  | setup_enroll ↦ l.busy || not (length l.code == 6)
  | code ↦ l.busy || is_empty l.code
  | backup ↦ false
  | mustchange ↦ l.busy || not (check_password (some l.new_pw)).ok
]

-- The form, or the button of the backup codes, that the phase shows.
submit_form : Phase → Login → Login × Effect
submit_form password l = submit_password l
submit_form setup_mustchange l = submit_setup_password l
submit_form setup_enroll l = submit_code l
submit_form code l = submit_code l
submit_form backup l =
    if l.must_change then (record l { phase = mustchange }, quiet) else (l, on_success)
submit_form mustchange l = submit_new_password l

-- `startMfaSetup`, up to its `await`
abbrev start_mfa_setup : Login → Login × Effect
start_mfa_setup l = (begin setup_mfa l, post_setup_mfa)

-- What stands behind each `await`, when the answer is a success.
continue : Wait → Body → Login → Login × Effect
continue login b l =
    if b.setup_required
    then (if b.must_change_password
        then (finish (record l { phase = setup_mustchange }), quiet)
        else start_mfa_setup l)
    else (finish (record l { phase = code }), quiet)
continue (setup_password pw) b l =
    start_mfa_setup (record l { password = pw; new_pw = []; confirm_pw = [] })
continue setup_mfa b l = (
  finish
      (record l { secret = b.secret; qr_source = b.otpauth_uri; code = []; phase = setup_enroll }),
  quiet,
)
continue verify b l = elim b.backup_codes [
  | [] ↦
      if b.must_change_password
      then (finish (record l { code = []; must_change = true; phase = mustchange }), quiet)
      else (finish (record l { code = []; must_change = false }), on_success)
  | c ∷ cs ↦ (
    finish (record l {
      code = [];
      must_change = b.must_change_password;
      backup_codes = c ∷ cs;
      phase = backup;
    }),
    quiet,
  )
]
continue new_password b l = (finish l, on_success)

on_outcome : Wait → Outcome → Login → Login × Effect
on_outcome w (bad message) l = (fail message l, quiet)
on_outcome w (good b) l = continue w b l

-- A reply that nothing waits for does nothing.
on_reply : Option Wait → Reply → Login → Login × Effect
on_reply none r l = (l, quiet)
on_reply (some w) r l = on_outcome w (outcome_of r) l

-- `v.replace(/\D/g, '').slice(0, 6)` where a fresh factor is enrolled; any text later.
type_code : Phase → Text → Text
type_code setup_enroll v = take 6 (keep is_digit v)
type_code _ v = v

-- Typing is admitted in every phase, also where the field is not shown.
pub data Event : Type 0 where
  username_typed password_typed new_pw_typed confirm_typed code_typed : Text → Event
  submitted : Event
  replied : Reply → Event

unfoldable pub step : Login → Event → Login × Effect
unfolding submit_form submit_password submit_setup_password submit_code submit_new_password on_reply
    on_outcome continue type_code
step l (username_typed v) = (record l { username = v }, quiet)
step l (password_typed v) = (record l { password = v }, quiet)
step l (new_pw_typed v) = (record l { new_pw = v }, quiet)
step l (confirm_typed v) = (record l { confirm_pw = v }, quiet)
step l (code_typed v) = (record l { code = type_code l.phase v }, quiet)
step l submitted = if is_disabled l then (l, quiet) else submit_form l.phase l
step l (replied r) = on_reply l.waiting r l
