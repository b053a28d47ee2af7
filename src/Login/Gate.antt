-- ===== src/Login/Gate.antt =====
-- Who gets past the sign-in.
use safe_dock.Common.{
  ◌≡◌, refl, arith, List, [], ◌∷◌, Bool, true, false, Option, none, some, Text, Bool-cases, inl,
  inr,
}
use safe_dock.Http.{Reply, Body, Outcome, good, bad, outcome_of}
use safe_dock.Login.{
  Phase, password, setup_mustchange, setup_enroll, code, backup, mustchange, Wait, login,
  setup_password, setup_mfa, verify, new_password, Login, initial, Event, username_typed,
  password_typed, new_pw_typed, confirm_typed, code_typed, submitted, replied, step, submit_form,
  submit_password, submit_setup_password, submit_code, submit_new_password, on_reply, on_outcome,
  continue, is_disabled, fail,
}

-- An observer of the requests and answers: whether a second factor has been accepted, and whether
-- the last answer that accepted one imposed a change of password that no answer has confirmed.
pub record Seen : Type 0 where
  pub verified : Bool
  pub owes : Bool

abbrev pub see_outcome : Wait → Outcome → Seen → Seen
see_outcome verify (good b) s = record { verified = true; owes = b.must_change_password }
see_outcome new_password (good b) s = record s { owes = false }
see_outcome _ _ s = s

abbrev pub see_reply : Option Wait → Reply → Seen → Seen
see_reply none r s = s
see_reply (some w) r s = see_outcome w (outcome_of r) s

unfoldable pub see : Login → Event → Seen → Seen
see l (replied r) s = see_reply l.waiting r s
see l _ s = s

abbrev pub nothing_seen : Seen
nothing_seen = record { verified = false; owes = false }

-- A session of the component, with its observer.
unfoldable pub run : Login → Seen → List Event → Login × Seen
run l s [] = (l, s)
run l s (e ∷ es) = run (step l e).0 (see l e s) es

-- The requests that can run in a phase.
unfoldable pub fits : Option Wait → Phase → Bool
fits none p = true
fits (some login) password = true
fits (some (setup_password pw)) setup_mustchange = true
fits (some setup_mfa) password = true
fits (some setup_mfa) setup_mustchange = true
fits (some verify) setup_enroll = true
fits (some verify) code = true
fits (some new_password) mustchange = true
fits _ _ = false

unfoldable pub is_open : Phase → Bool
is_open backup = true
is_open mustchange = true
is_open _ = false

unfoldable pub is_some : Option Wait → Bool
is_some none = false
is_some (some w) = true

pub record IsSound (l : Login) (s : Seen) : Type 0 where
  pub busy_eq : l.busy ≡ is_some l.waiting
  pub fitting : fits l.waiting l.phase ≡ true
  pub opened : is_open l.phase ≡ true → s.verified ≡ true
  pub owed : l.phase ≡ backup → s.owes ≡ l.must_change

-- What the new state depends on, for a step that stays in the phase.
submit-IsSound :
    (p : Phase) (l : Login) (s : Seen) → IsSound l s → l.phase ≡ p → IsSound (submit_form p l).0 s
unfolding submit_form submit_password submit_setup_password submit_code submit_new_password fits
    is_open is_some
submit-IsSound password l s h e = ground arith
submit-IsSound setup_mustchange l s h e = ground arith
submit-IsSound setup_enroll l s h e = ground arith
submit-IsSound code l s h e = ground arith
submit-IsSound backup l s h e = ground arith
submit-IsSound mustchange l s h e = ground arith

continue-IsSound :
    (w : Wait) (b : Body) (l : Login) (s : Seen)
    → IsSound l s
    → l.waiting ≡ some w
    → IsSound (continue w b l).0 (see_outcome w (good b) s)
unfolding continue fits is_open is_some
continue-IsSound login b l s h e = ground arith
continue-IsSound (setup_password pw) b l s h e = ground arith
continue-IsSound setup_mfa b l s h e = ground arith
continue-IsSound verify b l s h e = ground arith
continue-IsSound new_password b l s h e = ground arith

see_outcome-bad : (w : Wait) (m : Text) (s : Seen) → see_outcome w (bad m) s ≡ s
see_outcome-bad login m s = refl
see_outcome-bad (setup_password pw) m s = refl
see_outcome-bad setup_mfa m s = refl
see_outcome-bad verify m s = refl
see_outcome-bad new_password m s = refl

fail-IsSound : (m : Text) (l : Login) (s : Seen) → IsSound l s → IsSound (fail m l) s
unfolding fits is_some
fail-IsSound m l s h = ground arith

on_outcome-IsSound :
    (w : Wait) (o : Outcome) (l : Login) (s : Seen)
    → IsSound l s
    → l.waiting ≡ some w
    → IsSound (on_outcome w o l).0 (see_outcome w o s)
unfolding on_outcome
on_outcome-IsSound w (good b) l s h e = continue-IsSound w b l s h e
on_outcome-IsSound w (bad m) l s h e = rw (see_outcome-bad w m s) (fail-IsSound m l s h)

on_reply-IsSound :
    (w : Option Wait) (r : Reply) (l : Login) (s : Seen)
    → IsSound l s
    → l.waiting ≡ w
    → IsSound (on_reply w r l).0 (see_reply w r s)
unfolding on_reply
on_reply-IsSound none r l s h e = h
on_reply-IsSound (some w) r l s h e = on_outcome-IsSound w (outcome_of r) l s h e

-- Soundness reads only these parts of the state.
typed-IsSound :
    (l k : Login) (s : Seen)
    → k.phase ≡ l.phase
    → k.busy ≡ l.busy
    → k.waiting ≡ l.waiting
    → k.must_change ≡ l.must_change
    → IsSound l s
    → IsSound k s
typed-IsSound l k s same_phase same_busy same_waiting same_change h = ground arith

step-IsSound : (l : Login) (s : Seen) (e : Event) → IsSound l s → IsSound (step l e).0 (see l e s)
unfolding step see
step-IsSound l s (username_typed v) h = typed-IsSound l _ s refl refl refl refl h
step-IsSound l s (password_typed v) h = typed-IsSound l _ s refl refl refl refl h
step-IsSound l s (new_pw_typed v) h = typed-IsSound l _ s refl refl refl refl h
step-IsSound l s (confirm_typed v) h = typed-IsSound l _ s refl refl refl refl h
step-IsSound l s (code_typed v) h = typed-IsSound l _ s refl refl refl refl h
step-IsSound l s submitted h = elim (Bool-cases (is_disabled l)) [
  | inl disabled ↦ rw disabled h
  | inr enabled ↦ rw enabled (submit-IsSound l.phase l s h refl)
]
step-IsSound l s (replied r) h = on_reply-IsSound l.waiting r l s h refl

pub run-IsSound :
    (es : List Event) (l : Login) (s : Seen) → IsSound l s → IsSound (run l s es).0 (run l s es).1
unfolding run
run-IsSound [] l s h = h
run-IsSound (e ∷ es) l s h = run-IsSound es (step l e).0 (see l e s) (step-IsSound l s e h)

pub initial-IsSound : IsSound initial nothing_seen
unfolding fits is_open is_some
initial-IsSound = record { busy_eq = refl; fitting = refl; opened = λ e. cc; owed = λ e. cc }
