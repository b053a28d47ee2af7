-- ===== src/Setup/Gate.antt =====
-- What SetupView.jsx has been told when it stands in a phase.
use safe_dock.Common.{
  ◌≡◌, refl, arith, List, [], ◌∷◌, Bool, true, false, Option, none, some, Text, Bool-cases, inl,
  inr,
}
use safe_dock.Http.{Reply, Body, Outcome, good, bad, outcome_of}
use safe_dock.Setup.{
  Phase, token_entry, identity, enroll, backup, done, Wait, start, complete, setup_mfa, verify,
  Setup, initial, Event, token_typed, email_typed, first_name_typed, last_name_typed,
  password_typed, confirm_typed, code_typed, submitted, replied, step, submit_form, submit_token,
  submit_identity, submit_code, on_reply, on_outcome, continue, is_disabled, fail,
}

-- An observer of the answers: whether the token, the new account and a code have been accepted.
pub record Seen : Type 0 where
  pub admitted : Bool
  pub created : Bool
  pub verified : Bool

abbrev pub see_outcome : Wait → Outcome → Seen → Seen
see_outcome start (good b) s = record s { admitted = true }
see_outcome complete (good b) s = record s { created = true }
see_outcome verify (good b) s = record s { verified = true }
see_outcome _ _ s = s

abbrev pub see_reply : Option Wait → Reply → Seen → Seen
see_reply none r s = s
see_reply (some w) r s = see_outcome w (outcome_of r) s

unfoldable pub see : Setup → Event → Seen → Seen
see l (replied r) s = see_reply l.waiting r s
see l _ s = s

abbrev pub nothing_seen : Seen
nothing_seen = record { admitted = false; created = false; verified = false }

unfoldable pub run : Setup → Seen → List Event → Setup × Seen
run l s [] = (l, s)
run l s (e ∷ es) = run (step l e).0 (see l e s) es

-- The requests that can run in a phase.
unfoldable pub fits : Option Wait → Phase → Bool
fits none p = true
fits (some start) token_entry = true
fits (some complete) identity = true
fits (some setup_mfa) identity = true
fits (some verify) enroll = true
fits _ _ = false

-- Whether the assistant is at least so far.
unfoldable pub has_account : Phase → Bool
has_account token_entry = false
has_account identity = false
has_account _ = true

unfoldable pub is_over : Phase → Bool
is_over backup = true
is_over done = true
is_over _ = false

unfoldable pub is_started : Phase → Bool
is_started token_entry = false
is_started _ = true

unfoldable pub is_mfa : Option Wait → Bool
is_mfa (some setup_mfa) = true
is_mfa _ = false

unfoldable pub is_some : Option Wait → Bool
is_some none = false
is_some (some w) = true

pub record IsSound (l : Setup) (s : Seen) : Type 0 where
  pub busy_eq : l.busy ≡ is_some l.waiting
  pub fitting : fits l.waiting l.phase ≡ true
  pub started : is_started l.phase ≡ true → s.admitted ≡ true
  pub account : has_account l.phase ≡ true → s.created ≡ true
  pub before_mfa : is_mfa l.waiting ≡ true → s.created ≡ true
  pub over : is_over l.phase ≡ true → s.verified ≡ true

submit-IsSound :
    (p : Phase) (l : Setup) (s : Seen) → IsSound l s → l.phase ≡ p → IsSound (submit_form p l).0 s
unfolding submit_form submit_token submit_identity submit_code fits is_started has_account is_over
    is_mfa is_some
submit-IsSound token_entry l s h e = ground arith
submit-IsSound identity l s h e = ground arith
submit-IsSound enroll l s h e = ground arith
submit-IsSound backup l s h e = h
submit-IsSound done l s h e = h

continue-IsSound :
    (w : Wait) (b : Body) (l : Setup) (s : Seen)
    → IsSound l s
    → l.waiting ≡ some w
    → IsSound (continue w b l).0 (see_outcome w (good b) s)
unfolding continue fits is_started has_account is_over is_mfa is_some
continue-IsSound start b l s h e = ground arith
continue-IsSound complete b l s h e = ground arith
continue-IsSound setup_mfa b l s h e = ground arith
continue-IsSound verify b l s h e = ground arith

see_outcome-bad : (w : Wait) (m : Text) (s : Seen) → see_outcome w (bad m) s ≡ s
see_outcome-bad start m s = refl
see_outcome-bad complete m s = refl
see_outcome-bad setup_mfa m s = refl
see_outcome-bad verify m s = refl

fail-IsSound : (m : Text) (l : Setup) (s : Seen) → IsSound l s → IsSound (fail m l) s
unfolding fits is_some is_mfa
fail-IsSound m l s h = ground arith

on_outcome-IsSound :
    (w : Wait) (o : Outcome) (l : Setup) (s : Seen)
    → IsSound l s
    → l.waiting ≡ some w
    → IsSound (on_outcome w o l).0 (see_outcome w o s)
unfolding on_outcome
on_outcome-IsSound w (good b) l s h e = continue-IsSound w b l s h e
on_outcome-IsSound w (bad m) l s h e = rw (see_outcome-bad w m s) (fail-IsSound m l s h)

on_reply-IsSound :
    (w : Option Wait) (r : Reply) (l : Setup) (s : Seen)
    → IsSound l s
    → l.waiting ≡ w
    → IsSound (on_reply w r l).0 (see_reply w r s)
unfolding on_reply
on_reply-IsSound none r l s h e = h
on_reply-IsSound (some w) r l s h e = on_outcome-IsSound w (outcome_of r) l s h e

-- Soundness reads only the phase, `busy` and the request that runs.
typed-IsSound :
    (l k : Setup) (s : Seen)
    → k.phase ≡ l.phase
    → k.busy ≡ l.busy
    → k.waiting ≡ l.waiting
    → IsSound l s
    → IsSound k s
typed-IsSound l k s same_phase same_busy same_waiting h = ground arith

step-IsSound : (l : Setup) (s : Seen) (e : Event) → IsSound l s → IsSound (step l e).0 (see l e s)
unfolding step see
step-IsSound l s (token_typed v) h = typed-IsSound l _ s refl refl refl h
step-IsSound l s (email_typed v) h = typed-IsSound l _ s refl refl refl h
step-IsSound l s (first_name_typed v) h = typed-IsSound l _ s refl refl refl h
step-IsSound l s (last_name_typed v) h = typed-IsSound l _ s refl refl refl h
step-IsSound l s (password_typed v) h = typed-IsSound l _ s refl refl refl h
step-IsSound l s (confirm_typed v) h = typed-IsSound l _ s refl refl refl h
step-IsSound l s (code_typed v) h = typed-IsSound l _ s refl refl refl h
step-IsSound l s submitted h = elim (Bool-cases (is_disabled l)) [
  | inl disabled ↦ rw disabled h
  | inr enabled ↦ rw enabled (submit-IsSound l.phase l s h refl)
]
step-IsSound l s (replied r) h = on_reply-IsSound l.waiting r l s h refl

pub run-IsSound :
    (es : List Event) (l : Setup) (s : Seen) → IsSound l s → IsSound (run l s es).0 (run l s es).1
unfolding run
run-IsSound [] l s h = h
run-IsSound (e ∷ es) l s h = run-IsSound es (step l e).0 (see l e s) (step-IsSound l s e h)

pub initial-IsSound : (token : Text) → IsSound (initial token) nothing_seen
unfolding fits is_started has_account is_over is_mfa is_some
initial-IsSound token = ground arith
