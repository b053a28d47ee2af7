-- ===== src/Notices/Tests.antt =====
-- Two alerts, the first of them marked before the second comes.
use safe_dock.Common.{◌≡◌, refl, List, [], ◌∷◌, false, none, some, codes, map}
use safe_dock.Common.Decimal.{decimal}
use safe_dock.Notices.{
  badge, empty_table, Alert, Change, written, marked, apply, run, write_notification,
  mark_notifications_read, get_notifications, handle_get, critical, unread, view,
}
use safe_dock.Notices.Shown.{without_dot, marked-view}

abbrev leak : Alert
leak = record {
  level = codes "CRITICAL";
  title = codes "Fuite";
  body = [];
  container_name = codes "api";
  host = codes "nas";
}

abbrev update : Alert
update = record {
  level = codes "INFO";
  title = codes "Mise à jour";
  body = codes "v2";
  container_name = codes "web";
  host = [];
}

abbrev changes : List Change
changes =
    written (codes "2026-01-02 10:00:00") leak
    ∷ marked
    ∷ written (codes "2026-01-03 11:00:00") update
    ∷ []

marked-view_example :
    let t = run empty_table (written (codes "2026-01-02 10:00:00") leak ∷ []) in
    let before = view (λ s. s) critical (handle_get t) in
    let after = view (λ s. s) critical (handle_get (mark_notifications_read t)) in
    (after.cards ≡ map without_dot before.cards)
    × (after.badge ≡ none)
    × (after.has_mark_button ≡ false)
    × (after.is_empty_list ≡ before.is_empty_list)
marked-view_example =
    marked-view (λ s. s) critical
      (run empty_table (written (codes "2026-01-02 10:00:00") leak ∷ []))

-- A notification has a dot before it is marked.
badge_of-one :
    (view (λ s. s) critical (handle_get (run empty_table changes))).badge ≡ some (codes "1 non lue")
unfolding view run apply write_notification mark_notifications_read get_notifications handle_get
    unread badge decimal
badge_of-one = refl
