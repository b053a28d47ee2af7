-- ===== src/Setup/Entry.antt =====
-- When SetupView.jsx lets the new administrator in.
use safe_dock.Common.{◌≡◌, refl, arith, List, true, Option, none, some, Text, Bool-cases, inl, inr}
use safe_dock.Http.{Reply, Body, Outcome, good, bad, outcome_of}
use safe_dock.Setup.{
  Phase, token_entry, identity, enroll, backup, done, Wait, start, complete, setup_mfa, verify,
  Setup, initial, on_complete, Event, token_typed, email_typed, first_name_typed, last_name_typed,
  password_typed, confirm_typed, code_typed, submitted, replied, step, submit_form, submit_token,
  submit_identity, submit_code, on_reply, on_outcome, continue, is_disabled,
}
use safe_dock.Setup.Gate.{
  Seen, nothing_seen, run, is_over, has_account, is_started, IsSound, run-IsSound, initial-IsSound,
}

-- What the observer must have seen when `onComplete` is called.
abbrev IsSettled : Seen → Type 0
IsSettled s = (s.admitted ≡ true) × (s.created ≡ true) × (s.verified ≡ true)

submit-IsSettled :
    (p : Phase) (l : Setup) (s : Seen)
    → IsSound l s
    → l.phase ≡ p
    → (submit_form p l).1 ≡ on_complete
    → IsSettled s
unfolding submit_form submit_token submit_identity submit_code is_over has_account is_started
submit-IsSettled token_entry l s h e entered = ground arith
submit-IsSettled identity l s h e entered = ground arith
submit-IsSettled enroll l s h e entered = ground arith
submit-IsSettled backup l s h e entered = ground arith
submit-IsSettled done l s h e entered = ground arith

-- No answer lets anyone in: the button does.
continue-quiet : (w : Wait) (b : Body) (l : Setup) → (continue w b l).1 ≡ on_complete → ⊥
unfolding continue
continue-quiet start b l e = cc
continue-quiet complete b l e = cc
continue-quiet setup_mfa b l e = cc
continue-quiet verify b l e = ground arith

reply-quiet : (w : Option Wait) (r : Reply) (l : Setup) → (on_reply w r l).1 ≡ on_complete → ⊥
unfolding on_reply on_outcome
reply-quiet none r l e = cc
reply-quiet (some w) r l e = on_good (outcome_of r) e
  where
    on_good : (o : Outcome) → (on_outcome w o l).1 ≡ on_complete → ⊥
    on_good (good b) en = continue-quiet w b l en
    on_good (bad m) en = cc

step-IsSettled :
    (l : Setup) (s : Seen) (e : Event) → IsSound l s → (step l e).1 ≡ on_complete → IsSettled s
unfolding step
step-IsSettled l s (token_typed v) h entered = cc
step-IsSettled l s (email_typed v) h entered = cc
step-IsSettled l s (first_name_typed v) h entered = cc
step-IsSettled l s (last_name_typed v) h entered = cc
step-IsSettled l s (password_typed v) h entered = cc
step-IsSettled l s (confirm_typed v) h entered = cc
step-IsSettled l s (code_typed v) h entered = cc
step-IsSettled l s submitted h entered = elim (Bool-cases (is_disabled l)) [
  | inl disabled ↦ cc (rw disabled at entered)
  | inr enabled ↦ submit-IsSettled l.phase l s h refl (rw enabled at entered)
]
step-IsSettled l s (replied r) h entered = absurd (reply-quiet l.waiting r l entered)

-- The assistant is left only when it has done all of its work: whatever the user types and however
-- the server answers, when `onComplete` is called the token has been accepted, the account has been
-- created, and a code of the second factor has been accepted.
pub run-on_complete :
    (token : Text) (es : List Event) (e : Event)
    → (step (run (initial token) nothing_seen es).0 e).1 ≡ on_complete
    → let s = (run (initial token) nothing_seen es).1 in
      (s.admitted ≡ true) × (s.created ≡ true) × (s.verified ≡ true)
run-on_complete token es e entered =
    step-IsSettled _ _ e (run-IsSound es (initial token) nothing_seen (initial-IsSound token))
      entered
