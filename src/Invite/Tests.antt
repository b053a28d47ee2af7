-- ===== src/Invite/Tests.antt =====
-- A run of the page of an invitation.
use safe_dock.Common.{some, List, [], ◌∷◌, codes}
use safe_dock.Http.{empty_body, answered}
use safe_dock.Invite.{Event, initial, password_typed, confirm_typed, code_typed, submitted, replied}
use safe_dock.Invite.Gate.{Justified, nothing_seen, run, run-Justified}

abbrev activation : List Event
activation =
    replied (answered 200 (some empty_body))
    ∷ password_typed (codes "Harbour-Pilot7")
    ∷ confirm_typed (codes "Harbour-Pilot7")
    ∷ submitted
    ∷ replied (answered 200 (some empty_body))
    ∷ code_typed (codes "123 456")
    ∷ submitted
    ∷ replied (answered 200 (some empty_body))
    ∷ []

run-Justified_example :
    let (l, s) = run (initial (codes "inv1")).0 nothing_seen activation in
    Justified (codes "inv1") l.phase s
run-Justified_example = run-Justified (codes "inv1") activation
