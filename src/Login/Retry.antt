-- ===== src/Login/Retry.antt =====
-- What a refused request leaves of the form of LoginView.jsx.
use safe_dock.Common.{ℕ, ◌≡◌, ◌≢◌, refl, sym, ◌∙◌, List, [], true, false, Option, none, some}
use safe_dock.Http.{Body, outcome_of, is_ok, answered, error_message-ne-nil}
use safe_dock.Login.{Wait, Login, initial, quiet, Event, replied, step, on_reply, on_outcome}
use safe_dock.Login.Gate.{nothing_seen, run, is_some, run-IsSound, initial-IsSound}

-- The form after an answer that is no success.
pub record IsRetry (before after : Login) : Type 0 where
  pub same_username : after.username ≡ before.username
  pub same_must_change : after.must_change ≡ before.must_change
  pub same_secret : after.secret ≡ before.secret
  pub same_qr_source : after.qr_source ≡ before.qr_source
  pub same_backup_codes : after.backup_codes ≡ before.backup_codes
  pub same_phase : after.phase ≡ before.phase
  pub same_password : after.password ≡ before.password
  pub same_new_pw : after.new_pw ≡ before.new_pw
  pub same_confirm : after.confirm_pw ≡ before.confirm_pw
  pub same_code : after.code ≡ before.code
  pub idle : after.busy ≡ false
  pub message : after.error ≢ []

rejected-IsRetry :
    (w : Option Wait) (status : ℕ) (body : Option Body) (l : Login)
    → is_some w ≡ true
    → is_ok status ≡ false
    → IsRetry l (on_reply w (answered status body) l).0
      × ((on_reply w (answered status body) l).1 ≡ quiet)
unfolding on_reply on_outcome outcome_of is_some
rejected-IsRetry none status body l h e = cc
rejected-IsRetry (some w) status body l h e = rw e (
  record {
    same_username = refl;
    same_must_change = refl;
    same_secret = refl;
    same_qr_source = refl;
    same_backup_codes = refl;
    same_phase = refl;
    same_password = refl;
    same_new_pw = refl;
    same_confirm = refl;
    same_code = refl;
    idle = refl;
    message = error_message-ne-nil status body;
  },
  refl,
)

-- A refused request never blocks the sign-in: in every state that can be reached, if the form is
-- busy, an answer with an error status brings the form back as it was filled in, in the same phase,
-- no longer busy and with a message, and does nothing else.
pub run-rejected :
    (es : List Event) (status : ℕ) (body : Option Body)
    → (run initial nothing_seen es).0.busy ≡ true
    → is_ok status ≡ false
    → IsRetry
        (run initial nothing_seen es).0
        (step (run initial nothing_seen es).0 (replied (answered status body))).0
      × ((step (run initial nothing_seen es).0 (replied (answered status body))).1 ≡ quiet)
unfolding step
run-rejected es status body busy e =
    let sound = run-IsSound es initial nothing_seen initial-IsSound in
    rejected-IsRetry _ status body _ (sym sound.busy_eq ∙ busy) e
