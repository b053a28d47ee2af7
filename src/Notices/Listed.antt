-- ===== src/Notices/Listed.antt =====
-- The order and the length of the list of the notifications: internal/db/db.go.
use safe_dock.Common.{
  ◌≡◌, arith, ℕ, zero, suc, ◌<◌, ◌≤◌, List, [], ◌∷◌, length, take, map, length-take,
}
use safe_dock.Notices.{
  Notification, Table, empty_table, Change, written, marked, marked_row, write_notification,
  mark_notifications_read, get_notifications, handle_get, apply, run,
}

-- The numbers go down, from below a given one.
abbrev pub IsBelow : ℕ → List Notification → Type 0
IsBelow top [] = Unit
IsBelow top (n ∷ ns) = (n.id < top) × IsBelow n.id ns

marked_row-id : (n : Notification) → (marked_row n).id ≡ n.id
marked_row-id n = ground arith

IsBelow-marked_row :
    (top : ℕ) (ns : List Notification) → IsBelow top ns → IsBelow top (map marked_row ns)
IsBelow-marked_row top [] h = tt
IsBelow-marked_row top (n ∷ ns) h = rw (marked_row-id n) (h.0, IsBelow-marked_row n.id ns h.1)

apply-IsBelow :
    (c : Change) (t : Table)
    → IsBelow t.next_id t.rows
    → IsBelow (apply c t).next_id (apply c t).rows
unfolding apply write_notification mark_notifications_read
apply-IsBelow (written now a) t h = (omega arith, h)
apply-IsBelow marked t h = IsBelow-marked_row t.next_id t.rows h

run-IsBelow :
    (cs : List Change) (t : Table)
    → IsBelow t.next_id t.rows
    → IsBelow (run t cs).next_id (run t cs).rows
unfolding run
run-IsBelow [] t h = h
run-IsBelow (c ∷ cs) t h = run-IsBelow cs (apply c t) (apply-IsBelow c t h)

IsBelow-take : (k top : ℕ) (ns : List Notification) → IsBelow top ns → IsBelow top (take k ns)
IsBelow-take zero top ns h = tt
IsBelow-take (suc k) top [] h = tt
IsBelow-take (suc k) top (n ∷ ns) h = (h.0, IsBelow-take k n.id ns h.1)

-- The page gets the notifications from the last one down, each once, and 200 of them at most.
listed-IsBelow :
    (cs : List Change)
    → let t = run empty_table cs in IsBelow t.next_id (handle_get t) × (length (handle_get t) ≤ 200)
unfolding handle_get get_notifications
listed-IsBelow cs =
    let t = run empty_table cs in
    (
      IsBelow-take 200 t.next_id t.rows (run-IsBelow cs empty_table tt),
      omega (arith, length-take 200 t.rows),
    )
