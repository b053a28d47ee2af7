-- ===== src/Notices/Shown.antt =====
-- What the mark on all the notifications makes of the page: NotificationsView.jsx.
use safe_dock.Common.{
  ◌≡◌, refl, ap, arith, ℕ, zero, suc, List, [], ◌∷◌, true, false, none, Text, Bool-cases, inl, inr,
  length, take, map,
}
use safe_dock.Notices.{
  Notification, Table, as_read, marked_row, mark_notifications_read, get_notifications, handle_get,
  Filter, all, critical, warning, is_kept, filtered, unread, badge, Card, card, view,
}

-- A card without its dot.
abbrev pub without_dot : Card → Card
without_dot c = record c { has_dot = false }

read-as_read : (n : Notification) → n.read ≡ true → n ≡ as_read n
read-as_read n h = λ i. record n { read = h i }

marked_row_lem : (n : Notification) → marked_row n ≡ as_read n
marked_row_lem n = elim (Bool-cases n.read) [
  | inl seen ↦ simp seen (read-as_read n seen)
  | inr new ↦ simp new refl
]

length-marked_row : (ns : List Notification) → length (map marked_row ns) ≡ length ns
length-marked_row [] = refl
length-marked_row (n ∷ ns) = ap suc (length-marked_row ns)

take-marked_row :
    (k : ℕ) (ns : List Notification) → take k (map marked_row ns) ≡ map marked_row (take k ns)
take-marked_row zero ns = refl
take-marked_row (suc k) [] = refl
take-marked_row (suc k) (n ∷ ns) = ap (λ ms. marked_row n ∷ ms) (take-marked_row k ns)

unread-marked_row : (ns : List Notification) → unread (map marked_row ns) ≡ 0
unfolding unread
unread-marked_row [] = refl
unread-marked_row (n ∷ ns) = ground (arith, unread-marked_row ns)

is_kept-marked_row : (f : Filter) (n : Notification) → is_kept f (marked_row n) ≡ is_kept f n
unfolding is_kept
is_kept-marked_row all n = refl
is_kept-marked_row critical n = ground arith
is_kept-marked_row warning n = ground arith

filtered-marked_row :
    (f : Filter) (ns : List Notification)
    → filtered f (map marked_row ns) ≡ map marked_row (filtered f ns)
unfolding filtered
filtered-marked_row f [] = refl
filtered-marked_row f (n ∷ ns) = ground (arith, is_kept-marked_row f n, filtered-marked_row f ns)

module _ (to_locale : Text → Text) where
  card-marked_row :
      (n : Notification) → card to_locale (marked_row n) ≡ without_dot (card to_locale n)
  unfolding card
  card-marked_row n = ap (card to_locale) (marked_row_lem n)

  cards-marked_row :
      (ns : List Notification)
      → map (card to_locale) (map marked_row ns) ≡ map without_dot (map (card to_locale) ns)
  cards-marked_row [] = refl
  cards-marked_row (n ∷ ns) = rw (card-marked_row n, cards-marked_row ns) refl

  -- Behind the mark on all of them, the list that is fetched again shows the same cards under every filter,
  -- without their dots, and neither the counter nor the button.
  pub marked-view :
      (f : Filter) (t : Table)
      → let before = view to_locale f (handle_get t) in
        let after = view to_locale f (handle_get (mark_notifications_read t)) in
        (after.cards ≡ map without_dot before.cards)
        × (after.badge ≡ none)
        × (after.has_mark_button ≡ false)
        × (after.is_empty_list ≡ before.is_empty_list)
  unfolding view handle_get get_notifications mark_notifications_read badge
  marked-view f t =
      let listed : handle_get (mark_notifications_read t) ≡ map marked_row (handle_get t) =
        take-marked_row 200 t.rows in
      rw
        (
          listed,
          filtered-marked_row f (handle_get t),
          unread-marked_row (handle_get t),
          length-marked_row (filtered f (handle_get t)),
          cards-marked_row (filtered f (handle_get t)),
        )
        (refl, refl, refl, refl)
