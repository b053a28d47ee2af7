-- ===== src/Invite/Gate.antt =====
-- What InviteView.jsx has been told when it stands in a phase, and what it sends.
use safe_dock.Common.{
  ◌≡◌, ◌≢◌, ◌⊎◌, refl, arith, List, [], ◌∷◌, Bool, true, false, Option, none, some, Text,
  Bool-cases, inl, inr,
}
use safe_dock.Http.{Reply, Outcome, good, bad, outcome_of}
use safe_dock.Invite.{
  Phase, loading, invalid, password, enroll, backup, done, Wait, check, accept, verify, Invite,
  initial, Event, password_typed, confirm_typed, code_typed, submitted, replied, step, submit_form,
  submit_password, submit_code, on_reply, on_outcome, on_failure, continue, is_disabled,
}

-- An observer of the answers: whether the link, the password and a code have been accepted, and
-- whether the check of the link has failed, by a refusal, an error of the server or a lost fetch.
pub record Seen : Type 0 where
  pub checked : Bool
  pub failed : Bool
  pub accepted : Bool
  pub verified : Bool

abbrev pub see_outcome : Wait → Outcome → Seen → Seen
see_outcome check (good b) s = record s { checked = true }
see_outcome check (bad m) s = record s { failed = true }
see_outcome accept (good b) s = record s { accepted = true }
see_outcome verify (good b) s = record s { verified = true }
see_outcome _ _ s = s

abbrev pub see_reply : Option Wait → Reply → Seen → Seen
see_reply none r s = s
see_reply (some w) r s = see_outcome w (outcome_of r) s

unfoldable pub see : Invite → Event → Seen → Seen
see l (replied r) s = see_reply l.waiting r s
see l _ s = s

abbrev pub nothing_seen : Seen
nothing_seen = record { checked = false; failed = false; accepted = false; verified = false }

unfoldable pub run : Invite → Seen → List Event → Invite × Seen
run l s [] = (l, s)
run l s (e ∷ es) = run (step l e).0 (see l e s) es

-- The requests that can run in a phase, and the only one that runs while the page loads.
unfoldable pub fits : Option Wait → Phase → Bool
fits none loading = false
fits none _ = true
fits (some check) loading = true
fits (some accept) password = true
fits (some verify) enroll = true
fits _ _ = false

-- What the answers must have been for the page to stand in a phase.
abbrev pub Justified : Text → Phase → Seen → Type 0
Justified token loading s = (token ≢ []) × (s.checked ≡ false) × (s.failed ≡ false)
Justified token invalid s = ((token ≡ []) ⊎ (s.failed ≡ true)) × (s.checked ≡ false)
Justified token password s = s.checked ≡ true
Justified token enroll s = (s.checked ≡ true) × (s.accepted ≡ true)
Justified token backup s = (s.checked ≡ true) × (s.accepted ≡ true) × (s.verified ≡ true)
Justified token done s = (s.checked ≡ true) × (s.accepted ≡ true) × (s.verified ≡ true)

pub record IsSound (token : Text) (l : Invite) (s : Seen) : Type 0 where
  pub fitting : fits l.waiting l.phase ≡ true
  pub same_token : l.token ≡ token
  pub justified : Justified token l.phase s

submit-IsSound :
    (token : Text) (p : Phase) (l : Invite) (s : Seen)
    → IsSound token l s
    → l.phase ≡ p
    → is_disabled l ≡ false
    → IsSound token (submit_form p l).0 s
unfolding submit_form submit_password submit_code fits is_disabled
submit-IsSound token loading l s h e enabled = h
submit-IsSound token invalid l s h e enabled = h
submit-IsSound token password l s h e enabled = ground arith
submit-IsSound token enroll l s h e enabled = ground arith
submit-IsSound token backup l s h e enabled = ground arith
submit-IsSound token done l s h e enabled = h

outcome-IsSound :
    (token : Text) (w : Wait) (o : Outcome) (l : Invite) (s : Seen)
    → IsSound token l s
    → l.waiting ≡ some w
    → IsSound token (on_outcome w o l) (see_outcome w o s)
unfolding on_outcome continue on_failure fits
outcome-IsSound token check (good b) l s h e = ground arith
outcome-IsSound token check (bad m) l s h e = ground arith
outcome-IsSound token accept (good b) l s h e = ground arith
outcome-IsSound token accept (bad m) l s h e = ground arith
outcome-IsSound token verify (good b) l s h e = ground arith
outcome-IsSound token verify (bad m) l s h e = ground arith

reply-IsSound :
    (token : Text) (w : Option Wait) (r : Reply) (l : Invite) (s : Seen)
    → IsSound token l s
    → l.waiting ≡ w
    → IsSound token (on_reply w r l) (see_reply w r s)
unfolding on_reply
reply-IsSound token none r l s h e = h
reply-IsSound token (some w) r l s h e = outcome-IsSound token w (outcome_of r) l s h e

step-IsSound :
    (token : Text) (l : Invite) (s : Seen) (e : Event)
    → IsSound token l s
    → IsSound token (step l e).0 (see l e s)
unfolding step see
step-IsSound token l s (password_typed v) h = record {
  fitting = h.fitting;
  same_token = h.same_token;
  justified = h.justified;
}
step-IsSound token l s (confirm_typed v) h = record {
  fitting = h.fitting;
  same_token = h.same_token;
  justified = h.justified;
}
step-IsSound token l s (code_typed v) h = record {
  fitting = h.fitting;
  same_token = h.same_token;
  justified = h.justified;
}
step-IsSound token l s submitted h = elim (Bool-cases (is_disabled l)) [
  | inl disabled ↦ rw disabled h
  | inr enabled ↦ rw enabled (submit-IsSound token l.phase l s h refl enabled)
]
step-IsSound token l s (replied r) h = reply-IsSound token l.waiting r l s h refl

run-IsSound :
    (token : Text) (es : List Event) (l : Invite) (s : Seen)
    → IsSound token l s
    → IsSound token (run l s es).0 (run l s es).1
unfolding run
run-IsSound token [] l s h = h
run-IsSound token (e ∷ es) l s h =
    run-IsSound token es (step l e).0 (see l e s) (step-IsSound token l s e h)

initial-IsSound : (token : Text) → IsSound token (initial token).0 nothing_seen
unfolding initial fits
initial-IsSound [] = record { fitting = refl; same_token = refl; justified = (inl refl, refl) }
initial-IsSound (c ∷ s) = record {
  fitting = refl;
  same_token = refl;
  justified = ((λ e. cc), refl, refl);
}

-- The phase that the page shows is always justified by the answers to its token: 'Compte activé' and
-- the backup codes appear only when the link, the password and a code have been accepted, the form
-- for the password only when the link has, and 'Invitation invalide' only when there is no token or the
-- check of the link has failed, by a refusal, an error of the server or a lost fetch.
pub run-Justified :
    (token : Text) (es : List Event)
    → let (l, s) = run (initial token).0 nothing_seen es in Justified token l.phase s
run-Justified token es =
    (run-IsSound token es (initial token).0 nothing_seen (initial-IsSound token)).justified
