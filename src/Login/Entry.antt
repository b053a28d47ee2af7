-- ===== src/Login/Entry.antt =====
-- Who gets past the sign-in of LoginView.jsx.
use safe_dock.Common.{◌≡◌, refl, arith, List, true, false, Option, none, some, Bool-cases, inl, inr}
use safe_dock.Http.{Reply, Body, Outcome, good, bad, outcome_of}
use safe_dock.Login.{
  Phase, password, setup_mustchange, setup_enroll, code, backup, mustchange, Wait, login,
  setup_password, setup_mfa, verify, new_password, Login, initial, on_success, Event,
  username_typed, password_typed, new_pw_typed, confirm_typed, code_typed, submitted, replied, step,
  submit_form, submit_password, submit_setup_password, submit_code, submit_new_password, on_reply,
  on_outcome, continue, is_disabled,
}
use safe_dock.Login.Gate.{
  Seen, nothing_seen, see, see_outcome, see_reply, run, fits, is_open, IsSound, run-IsSound,
  initial-IsSound,
}

-- What the observer must have seen when `onSuccess` is called.
abbrev MayEnter : Seen → Type 0
MayEnter s = (s.verified ≡ true) × (s.owes ≡ false)

submit-MayEnter :
    (p : Phase) (l : Login) (s : Seen)
    → IsSound l s
    → l.phase ≡ p
    → (submit_form p l).1 ≡ on_success
    → MayEnter s
unfolding submit_form submit_password submit_setup_password submit_code submit_new_password is_open
submit-MayEnter password l s h e entered = ground arith
submit-MayEnter setup_mustchange l s h e entered = ground arith
submit-MayEnter setup_enroll l s h e entered = ground arith
submit-MayEnter code l s h e entered = ground arith
submit-MayEnter backup l s h e entered = ground arith
submit-MayEnter mustchange l s h e entered = ground arith

continue-MayEnter :
    (w : Wait) (b : Body) (l : Login) (s : Seen)
    → IsSound l s
    → l.waiting ≡ some w
    → (continue w b l).1 ≡ on_success
    → MayEnter (see_outcome w (good b) s)
unfolding continue fits is_open
continue-MayEnter login b l s h e entered = ground arith
continue-MayEnter (setup_password pw) b l s h e entered = ground arith
continue-MayEnter setup_mfa b l s h e entered = ground arith
continue-MayEnter verify b l s h e entered = ground arith
continue-MayEnter new_password b l s h e entered = ground arith

reply-MayEnter :
    (w : Option Wait) (r : Reply) (l : Login) (s : Seen)
    → IsSound l s
    → l.waiting ≡ w
    → (on_reply w r l).1 ≡ on_success
    → MayEnter (see_reply w r s)
unfolding on_reply on_outcome
reply-MayEnter none r l s h e entered = cc
reply-MayEnter (some w) r l s h e entered = on_good (outcome_of r) entered
  where
    on_good : (o : Outcome) → (on_outcome w o l).1 ≡ on_success → MayEnter (see_outcome w o s)
    on_good (good b) en = continue-MayEnter w b l s h e en
    on_good (bad m) en = cc

step-MayEnter :
    (l : Login) (s : Seen) (e : Event)
    → IsSound l s
    → (step l e).1 ≡ on_success
    → MayEnter (see l e s)
unfolding step see
step-MayEnter l s (username_typed v) h entered = cc
step-MayEnter l s (password_typed v) h entered = cc
step-MayEnter l s (new_pw_typed v) h entered = cc
step-MayEnter l s (confirm_typed v) h entered = cc
step-MayEnter l s (code_typed v) h entered = cc
step-MayEnter l s submitted h entered = elim (Bool-cases (is_disabled l)) [
  | inl disabled ↦ cc (rw disabled at entered)
  | inr enabled ↦ submit-MayEnter l.phase l s h refl (rw enabled at entered)
]
step-MayEnter l s (replied r) h entered = reply-MayEnter l.waiting r l s h refl entered

-- The sign-in is left only behind a second factor: whatever the user types and however the server
-- answers, when `onSuccess` is called an answer has accepted a code, and if the last such answer
-- imposed a change of password, a later answer has confirmed one.
pub run-on_success :
    (es : List Event) (e : Event)
    → (step (run initial nothing_seen es).0 e).1 ≡ on_success
    → let s = see (run initial nothing_seen es).0 e (run initial nothing_seen es).1 in
      (s.verified ≡ true) × (s.owes ≡ false)
run-on_success es e entered =
    step-MayEnter _ _ e (run-IsSound es initial nothing_seen initial-IsSound) entered
