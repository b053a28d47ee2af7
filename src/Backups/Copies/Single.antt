-- ===== src/Backups/Copies/Single.antt =====
-- The button of the backups, and the creations on their way.
use safe_dock.Common.{
  ◌≡◌, refl, arith, ℕ, zero, suc, List, [], ◌∷◌, Bool, true, false, Option, none, some, Text,
  if◌then◌else◌,
}
use safe_dock.Backups.Copies.{
  Copies, unopened, Result, accepted, rejected, Event, tab_opened, create_pressed, status_faded,
  delete_pressed, created, deleted, listed, load_backups, create_backup, on_created, on_deleted,
  on_listed, step, run,
}

-- The number of creations behind the button.
abbrev pub busy_count : Bool → ℕ
busy_count b = if b then 1 else 0

Agrees : Copies → Type 0
Agrees c = c.creating ≡ busy_count c.backup_busy

create-Agrees : (c : Copies) → Agrees c → Agrees (create_backup c).0
unfolding create_backup Agrees
create-Agrees c h = ground (arith, h)

on_created-Agrees :
    (n : ℕ) (r : Result) (c : Copies) → c.creating ≡ n → Agrees c → Agrees (on_created n r c).0
unfolding on_created load_backups Agrees
on_created-Agrees zero r c e h = h
on_created-Agrees (suc n) accepted c e h = ground (arith, e, h)
on_created-Agrees (suc n) (rejected m) c e h = ground (arith, e, h)

on_deleted-Agrees : (n : ℕ) (r : Result) (c : Copies) → Agrees c → Agrees (on_deleted n r c).0
unfolding on_deleted load_backups Agrees
on_deleted-Agrees zero r c h = h
on_deleted-Agrees (suc n) accepted c h = h
on_deleted-Agrees (suc n) (rejected m) c h = h

on_listed-Agrees :
    (n : ℕ) (r : Option (List Text)) (c : Copies) → Agrees c → Agrees (on_listed n r c)
unfolding on_listed Agrees
on_listed-Agrees zero r c h = h
on_listed-Agrees (suc n) none c h = h
on_listed-Agrees (suc n) (some names) c h = h

step-Agrees : (c : Copies) (e : Event) → Agrees c → Agrees (step c e).0
unfolding step load_backups Agrees
step-Agrees c tab_opened h = h
step-Agrees c create_pressed h = create-Agrees c h
step-Agrees c status_faded h = h
step-Agrees c (delete_pressed name true) h = h
step-Agrees c (delete_pressed name false) h = h
step-Agrees c (created r) h = on_created-Agrees c.creating r c refl h
step-Agrees c (deleted r) h = on_deleted-Agrees c.deleting r c h
step-Agrees c (listed r) h = on_listed-Agrees c.loading r c h

run-Agrees : (c : Copies) (es : List Event) → Agrees c → Agrees (run c es).0
unfolding run
run-Agrees c [] h = h
run-Agrees c (e ∷ es) h = run-Agrees (step c e).0 es (step-Agrees c e h)

-- Backups are created one at a time: whatever is opened, pressed and answered, in whatever order, one
-- creation is on its way while the button is busy and none while it is free; so that the button is
-- free again once the creation has been answered, accepted or not.
run-single :
    (es : List Event) → let c = (run unopened es).0 in c.creating ≡ (if c.backup_busy then 1 else 0)
unfolding Agrees
run-single es = run-Agrees unopened es refl
