-- ===== src/Scope/Tests.antt =====
-- A run of the scope editor.
use safe_dock.Common.{◌≡◌, refl, true, false, none, some, List, [], ◌∷◌}
use safe_dock.Scope.{
  opened, set_from, tag_pressed, host_pressed, all_chosen, Account, PageEvent, row_pressed, edited,
  save_pressed, post_scope, open_editor, page_step, page_run,
}
use safe_dock.Scope.Toggles.{IsScope, see_all, run-has}

abbrev ada : Account
ada = record { id = 1; scope_all = false; allowed_tags = some (4 ∷ 9 ∷ []); allowed_hosts = none }

abbrev bob : Account
bob = record { id = 2; scope_all = false; allowed_tags = none; allowed_hosts = none }

abbrev presses : List PageEvent
presses =
    row_pressed ada
    ∷ edited (tag_pressed 4)
    ∷ edited (all_chosen true)
    ∷ edited (tag_pressed 9)
    ∷ edited (all_chosen false)
    ∷ edited (host_pressed 2)
    ∷ []

-- The second row takes over the sets of the first.
second_row :
    (page_step (page_run none (row_pressed ada ∷ row_pressed bob ∷ [])) save_pressed).1
    ≡ post_scope 2 (record { scope_all = false; tags = 4 ∷ 9 ∷ []; hosts = [] })
unfolding page_step page_run open_editor opened set_from
second_row = refl

run-has_example :
    IsScope 4 (page_step (page_run none presses) save_pressed).1 (see_all none presses)
run-has_example = run-has presses 4
