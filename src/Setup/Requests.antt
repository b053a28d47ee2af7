-- ===== src/Setup/Requests.antt =====
-- What SetupView.jsx sends.
use safe_dock.Common.{
  ◌≡◌, ◌≢◌, refl, ap, arith, [], true, false, Option, none, some, text_eq_iff, Bool-cases, length,
  inl, inr,
}
use safe_dock.PasswordPolicy.{check_password}
use safe_dock.Http.{Reply, Body, Outcome, good, bad, outcome_of}
use safe_dock.Setup.{
  Phase, token_entry, identity, enroll, backup, done, Wait, start, complete, setup_mfa, verify,
  Setup, Effect, post_start, post_complete, post_setup_mfa, post_verify, Event, token_typed,
  email_typed, first_name_typed, last_name_typed, password_typed, confirm_typed, code_typed,
  submitted, replied, step, submit_form, submit_token, submit_identity, submit_code, on_reply,
  on_outcome, continue, is_disabled,
}

-- What a request may be, in the state that it is sent from.
abbrev pub IsFit : Setup → Effect → Type 0
IsFit l (post_start token) = token ≢ []
IsFit l (post_complete token email first_name last_name password) =
    (email ≢ []) × ((check_password (some password)).ok ≡ true) × (password ≡ l.confirm)
IsFit l (post_verify code) = length code ≡ 6
IsFit l _ = Unit

submit-IsFit :
    (p : Phase) (l : Setup) → l.phase ≡ p → is_disabled l ≡ false → IsFit l (submit_form p l).1
unfolding submit_form submit_token submit_identity submit_code is_disabled
submit-IsFit token_entry l e enabled = ground arith
submit-IsFit identity l e enabled = ground (arith, (text_eq_iff l.password l.confirm).0)
submit-IsFit enroll l e enabled = ground arith
submit-IsFit backup l e enabled = tt
submit-IsFit done l e enabled = tt

continue-IsFit : (w : Wait) (b : Body) (l k : Setup) → IsFit k (continue w b l).1
unfolding continue
continue-IsFit start b l k = tt
continue-IsFit complete b l k = tt
continue-IsFit setup_mfa b l k = tt
continue-IsFit verify b l k = ground arith

reply-IsFit : (w : Option Wait) (r : Reply) (l k : Setup) → IsFit k (on_reply w r l).1
unfolding on_reply on_outcome
reply-IsFit none r l k = tt
reply-IsFit (some w) r l k = on_each (outcome_of r)
  where
    on_each : (o : Outcome) → IsFit k (on_outcome w o l).1
    on_each (good b) = continue-IsFit w b l k
    on_each (bad m) = tt

-- Whatever has been typed, a form is sent only as it should be: a token and an e-mail address that
-- are not blank, a password that the policy accepts and that was typed twice alike, and a code of
-- six characters.
step-IsFit : (l : Setup) (e : Event) → IsFit l (step l e).1
unfolding step
step-IsFit l (token_typed v) = tt
step-IsFit l (email_typed v) = tt
step-IsFit l (first_name_typed v) = tt
step-IsFit l (last_name_typed v) = tt
step-IsFit l (password_typed v) = tt
step-IsFit l (confirm_typed v) = tt
step-IsFit l (code_typed v) = tt
step-IsFit l submitted = elim (Bool-cases (is_disabled l)) [
  | inl disabled ↦ rw disabled tt
  | inr enabled ↦ rw enabled (submit-IsFit l.phase l refl enabled)
]
step-IsFit l (replied r) = reply-IsFit l.waiting r l l

submit-not-mfa : (p : Phase) (l : Setup) → (submit_form p l).1 ≡ post_setup_mfa → ⊥
unfolding submit_form submit_token submit_identity submit_code
submit-not-mfa token_entry l e = ground arith
submit-not-mfa identity l e = ground arith
submit-not-mfa enroll l e = ground arith
submit-not-mfa backup l e = cc
submit-not-mfa done l e = cc

continue-mfa :
    (w : Wait) (b : Body) (l : Setup) → (continue w b l).1 ≡ post_setup_mfa → w ≡ complete
unfolding continue
continue-mfa start b l e = cc
continue-mfa complete b l e = refl
continue-mfa setup_mfa b l e = cc
continue-mfa verify b l e = ground arith

reply-mfa :
    (w : Option Wait) (r : Reply) (l : Setup)
    → (on_reply w r l).1 ≡ post_setup_mfa
    → (w ≡ some complete) × ((b : Body) × (outcome_of r ≡ good b))
unfolding on_reply on_outcome
reply-mfa none r l e = cc
reply-mfa (some w) r l e = on_each (outcome_of r) refl e
  where
    on_each :
        (o : Outcome)
        → outcome_of r ≡ o
        → (on_outcome w o l).1 ≡ post_setup_mfa
        → (some w ≡ some complete) × ((b : Body) × (outcome_of r ≡ good b))
    on_each (good b) same en = (ap (λ (v : Wait). some v) (continue-mfa w b l en), (b, same))
    on_each (bad m) same en = cc

-- The enrolment of the second factor is asked for only in direct answer to an accepted creation of
-- the account, and so never by the form alone.
step-post_setup_mfa :
    (l : Setup) (e : Event)
    → (step l e).1 ≡ post_setup_mfa
    → (l.waiting ≡ some complete)
      × ((r : Reply) × (b : Body) × (e ≡ replied r) × (outcome_of r ≡ good b))
unfolding step
step-post_setup_mfa l (token_typed v) h = cc
step-post_setup_mfa l (email_typed v) h = cc
step-post_setup_mfa l (first_name_typed v) h = cc
step-post_setup_mfa l (last_name_typed v) h = cc
step-post_setup_mfa l (password_typed v) h = cc
step-post_setup_mfa l (confirm_typed v) h = cc
step-post_setup_mfa l (code_typed v) h = cc
step-post_setup_mfa l submitted h = elim (Bool-cases (is_disabled l)) [
  | inl disabled ↦ cc (rw disabled at h)
  | inr enabled ↦ absurd (submit-not-mfa l.phase l (rw enabled at h))
]
step-post_setup_mfa l (replied r) h =
    let (waiting, (b, accepted)) = reply-mfa l.waiting r l h in (waiting, (r, b, refl, accepted))
