-- ===== src/Backups/Copies/Tests.antt =====
-- A second press while the first creation runs, which is then refused.
use safe_dock.Common.{List, [], ◌∷◌}
use safe_dock.Backups.Copies.{Event, tab_opened, create_pressed, created, rejected}

abbrev pressed_twice : List Event
pressed_twice = tab_opened ∷ create_pressed ∷ create_pressed ∷ created (rejected []) ∷ []
