-- ===== src/Setup/Tests.antt =====
-- Runs of the assistant of the first start.
use safe_dock.Common.{◌≡◌, refl, true, some, List, [], ◌∷◌, codes, text_eq}
use safe_dock.PasswordPolicy.{
  check_password, code_points, is_upper, is_lower, is_digit, is_special, is_high, is_space,
}
use safe_dock.Http.{empty_body, is_ok, outcome_of, answered}
use safe_dock.Setup.{
  Setup, Event, initial, email_typed, password_typed, confirm_typed, code_typed, submitted, replied,
  step, is_disabled, submit_form, submit_token, submit_identity, submit_code, on_reply, on_outcome,
  continue,
}
use safe_dock.Trim.{trim, trim_left, trim_right}
use safe_dock.Setup.Gate.{nothing_seen, run}
use safe_dock.Setup.Entry.{run-on_complete}

abbrev fine : Event
fine = replied (answered 200 (some empty_body))

abbrev until_identity : List Event
until_identity =
    submitted
    ∷ fine
    ∷ email_typed (codes "ada@dock.example")
    ∷ password_typed (codes "Harbour-Pilot7")
    ∷ confirm_typed (codes "Harbour-Pilot7")
    ∷ []

abbrev until_created : List Event
until_created =
    submitted
    ∷ fine
    ∷ email_typed (codes "ada@dock.example")
    ∷ password_typed (codes "Harbour-Pilot7")
    ∷ confirm_typed (codes "Harbour-Pilot7")
    ∷ submitted
    ∷ []

abbrev until_done : List Event
until_done =
    submitted
    ∷ fine
    ∷ email_typed (codes "ada@dock.example")
    ∷ password_typed (codes "Harbour-Pilot7")
    ∷ confirm_typed (codes "Harbour-Pilot7")
    ∷ submitted
    ∷ fine
    ∷ fine
    ∷ code_typed (codes "123456")
    ∷ submitted
    ∷ fine
    ∷ []

abbrev state_after : List Event → Setup
state_after es = (run (initial (codes "t0k3n")) nothing_seen es).0

run-on_complete_example :
    let s = (run (initial (codes "t0k3n")) nothing_seen until_done).1 in
    (s.admitted ≡ true) × (s.created ≡ true) × (s.verified ≡ true)
unfolding run step is_disabled submit_form submit_token submit_identity submit_code on_reply
    on_outcome continue outcome_of is_ok trim trim_left trim_right check_password code_points
    is_upper is_lower is_digit is_special is_high is_space text_eq
run-on_complete_example = run-on_complete (codes "t0k3n") until_done submitted refl
