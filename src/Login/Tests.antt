-- ===== src/Login/Tests.antt =====
-- Sessions of the sign-in.
use safe_dock.Common.{◌≡◌, refl, true, false, none, some, List, [], ◌∷◌, codes}
use safe_dock.Http.{empty_body, is_ok, outcome_of, answered}
use safe_dock.Login.{
  Login, Event, initial, quiet, username_typed, password_typed, code_typed, submitted, replied,
  step, is_disabled, submit_form, submit_password, submit_code, on_reply, on_outcome, continue,
  type_code,
}
use safe_dock.Login.Gate.{nothing_seen, run, see}
use safe_dock.Login.Entry.{run-on_success}
use safe_dock.Login.Retry.{IsRetry, run-rejected}

abbrev until_code : List Event
until_code =
    username_typed (codes "ada")
    ∷ password_typed (codes "pw")
    ∷ submitted
    ∷ replied (answered 200 (some empty_body))
    ∷ code_typed (codes "123456")
    ∷ submitted
    ∷ []

abbrev accepted : Event
accepted = replied (answered 200 (some empty_body))

abbrev at_code : Login
at_code = (run initial nothing_seen until_code).0

run-on_success_example :
    let s = see at_code accepted (run initial nothing_seen until_code).1 in
    (s.verified ≡ true) × (s.owes ≡ false)
unfolding run step is_disabled submit_form submit_password submit_code on_reply on_outcome continue
    type_code outcome_of is_ok
run-on_success_example = run-on_success until_code accepted refl

run-rejected_example :
    IsRetry at_code (step at_code (replied (answered 401 none))).0
    × ((step at_code (replied (answered 401 none))).1 ≡ quiet)
unfolding run step is_disabled submit_form submit_password submit_code on_reply on_outcome continue
    type_code outcome_of is_ok
run-rejected_example = run-rejected until_code 401 none refl refl
