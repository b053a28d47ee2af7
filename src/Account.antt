-- ===== src/Account.antt =====
-- The changes of the own password: `changePassword` of
-- internal/web/frontend/src/components/AccountView.jsx and `ForcedPasswordChange` of App.jsx, and the
-- saving of the profile. `apiPost` of App.jsx rejects with a message where the status is no success.
-- The child Card is the card beside the forms; the choice of the tab is not modelled.
pub mod Card
pub mod Changes
mod Tests
use safe_dock.Common.{
  ℕ, suc, ◌-◌, List, [], ◌∷◌, Bool, true, false, not, ◌||◌, Option, none, some, Text, codes,
  text_eq, if◌then◌else◌,
}
use safe_dock.PasswordPolicy.{check_password, weak_message}
use safe_dock.Http.{or_text}

-- How a request ends: it is resolved, or rejected with a message.
pub data Answer : Type 0 where
  resolved : Answer
  rejected : Text → Answer

-- `pwStatus` and `profileStatus`
pub data Status : Type 0 where
  silent : Status
  success : Text → Status
  failure : Text → Status

pub record Account : Type 0 where
  pub first_name : Text
  pub last_name : Text
  pub profile_status : Status
  pub cur_pw : Text
  pub new_pw : Text
  pub confirm_pw : Text
  pub pw_status : Status

pub data Effect : Type 0 where
  quiet : Effect
  post_password : (current new : Text) → Effect
  post_profile : (first_name last_name : Text) → Effect
  check_session log_out : Effect

abbrev mismatch_message : Text
mismatch_message = codes "Les mots de passe ne correspondent pas."

-- `changePassword`, up to its `await`
unfoldable pub change_password : Account → Account × Effect
change_password a =
    if not (check_password (some a.new_pw)).ok
    then (record a { pw_status = failure weak_message }, quiet)
    else (if not (text_eq a.new_pw a.confirm_pw)
        then (record a { pw_status = failure mismatch_message }, quiet)
        else (a, post_password a.cur_pw a.new_pw))

pub data Event : Type 0 where
  first_name_typed last_name_typed cur_typed new_typed confirm_typed : Text → Event
  password_pressed profile_pressed : Event
  password_answered profile_answered : Answer → Event
  -- The timer behind a saved profile.
  profile_faded : Event

-- Both buttons stay enabled while a request runs; every answer is taken as it comes.
unfoldable pub step : Account → Event → Account × Effect
step a (first_name_typed v) = (record a { first_name = v }, quiet)
step a (last_name_typed v) = (record a { last_name = v }, quiet)
step a (cur_typed v) = (record a { cur_pw = v }, quiet)
step a (new_typed v) = (record a { new_pw = v }, quiet)
step a (confirm_typed v) = (record a { confirm_pw = v }, quiet)
step a password_pressed = change_password a
step a profile_pressed = (a, post_profile a.first_name a.last_name)
step a (password_answered resolved) = (
  record a {
    cur_pw = [];
    new_pw = [];
    confirm_pw = [];
    pw_status = success (codes "Mot de passe changé avec succès.");
  },
  quiet,
)
step a (password_answered (rejected message)) =
    (record a { pw_status = failure (or_text message (codes "Échec du changement.")) }, quiet)
step a (profile_answered resolved) =
    (record a { profile_status = success (codes "Profil mis à jour.") }, quiet)
step a (profile_answered (rejected message)) = (
  record a { profile_status = failure (or_text message (codes "Échec de la mise à jour.")) },
  quiet,
)
step a profile_faded = (record a { profile_status = silent }, quiet)

-- `ForcedPasswordChange`
pub data Wait : Type 0 where
  change done : Wait

pub record Forced : Type 0 where
  pub cur : Text
  pub nw : Text
  pub err : Text
  pub busy : Bool
  pub waiting : Option Wait

abbrev pub forced_initial : Forced
forced_initial = record { cur = []; nw = []; err = []; busy = false; waiting = none }

pub data ForcedEvent : Type 0 where
  forced_cur_typed forced_new_typed : Text → ForcedEvent
  forced_submitted logged_out : ForcedEvent
  forced_answered : Answer → ForcedEvent

-- Whether the button is disabled, which keeps the form from being submitted.
unfoldable pub is_disabled : Forced → Bool
is_disabled f = f.busy || not (check_password (some f.nw)).ok

-- `submit`, up to its first `await`
unfoldable pub submit : Forced → Forced × Effect
submit f =
    if not (check_password (some f.nw)).ok
    then (record f { err = weak_message }, quiet)
    else (record f { busy = true; err = []; waiting = some change }, post_password f.cur f.nw)

-- Behind `await onChangePassword` stands `await onDone()`, a new check of the session.
unfoldable pub on_answer : Option Wait → Answer → Forced → Forced × Effect
on_answer none r f = (f, quiet)
on_answer (some change) resolved f = (record f { waiting = some done }, check_session)
on_answer (some done) resolved f = (record f { busy = false; waiting = none }, quiet)
on_answer (some w) (rejected message) f = (
  record f { busy = false; err = or_text message (codes "Échec du changement."); waiting = none },
  quiet,
)

unfoldable pub forced_step : Forced → ForcedEvent → Forced × Effect
forced_step f (forced_cur_typed v) = (record f { cur = v }, quiet)
forced_step f (forced_new_typed v) = (record f { nw = v }, quiet)
forced_step f forced_submitted = if is_disabled f then (f, quiet) else submit f
forced_step f logged_out = (f, log_out)
forced_step f (forced_answered r) = on_answer f.waiting r f
