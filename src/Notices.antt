-- ===== src/Notices.antt =====
-- internal/web/frontend/src/components/NotificationsView.jsx, with the table of the notifications in
-- internal/db/db.go and `HandleNotifications` of internal/api/users.go behind its check of the role. The
-- local form of a date is a parameter; the storage does not fail.
pub mod Listed
pub mod Shown
mod Tests
use safe_dock.Common.{
  ℕ, suc, ◌+◌, List, [], ◌∷◌, ◌++◌, Bool, true, false, not, ◌&&◌, ◌||◌, Option, none, some, Text,
  codes, is_empty, text_eq, ltb, leb, ◌==◌, if◌then◌else◌, length, take, keep, map,
}
use safe_dock.Common.Decimal.{decimal}

-- `Notification`
pub record Notification : Type 0 where
  pub id : ℕ
  pub timestamp : Text
  pub level : Text
  pub title : Text
  pub body : Text
  pub container_name : Text
  pub host : Text
  pub read : Bool

-- The table, the last row first, and the number of the next one (AUTOINCREMENT).
pub record Table : Type 0 where
  pub next_id : ℕ
  pub rows : List Notification

abbrev pub empty_table : Table
empty_table = record { next_id = 1; rows = [] }

-- What is written: a level, a title, a body, a container and a host, at a time.
pub record Alert : Type 0 where
  pub level : Text
  pub title : Text
  pub body : Text
  pub container_name : Text
  pub host : Text

abbrev row_of : ℕ → Text → Alert → Notification
row_of id now a = record {
  id = id;
  timestamp = now;
  level = a.level;
  title = a.title;
  body = a.body;
  container_name = a.container_name;
  host = a.host;
  read = false;
}

-- `WriteNotification`
unfoldable pub write_notification : (now : Text) → Alert → Table → Table
write_notification now a t = record {
  next_id = suc t.next_id;
  rows = row_of t.next_id now a ∷ t.rows;
}

-- `GetNotifications`
unfoldable pub get_notifications : (limit : ℕ) → Table → List Notification
get_notifications limit t = take (if limit == 0 || ltb 1000 limit then 200 else limit) t.rows

abbrev pub as_read : Notification → Notification
as_read n = record n { read = true }

abbrev pub marked_row : Notification → Notification
marked_row n = if n.read then n else as_read n

-- `MarkNotificationsRead`
unfoldable pub mark_notifications_read : Table → Table
mark_notifications_read t = record t { rows = map marked_row t.rows }

-- `/api/notifications`: the list, or the mark on all.
unfoldable pub handle_get : Table → List Notification
unfolding get_notifications
handle_get t = get_notifications 200 t

pub data Change : Type 0 where
  written : (now : Text) → Alert → Change
  marked : Change

unfoldable pub apply : Change → Table → Table
unfolding write_notification mark_notifications_read
apply (written now a) t = write_notification now a t
apply marked t = mark_notifications_read t

unfoldable pub run : Table → List Change → Table
unfolding apply
run t [] = t
run t (c ∷ cs) = run (apply c t) cs

pub data Filter : Type 0 where
  all critical warning : Filter

-- `filtered`
unfoldable pub is_kept : Filter → Notification → Bool
is_kept all n = true
is_kept critical n = text_eq n.level (codes "CRITICAL")
is_kept warning n = text_eq n.level (codes "WARNING")

unfoldable pub filtered : Filter → List Notification → List Notification
unfolding is_kept
filtered f ns = keep (is_kept f) ns

unfoldable pub unread : List Notification → ℕ
unread ns = length (keep (λ n. not n.read) ns)

-- The label of the counter.
unfoldable pub badge : (unread : ℕ) → Option Text
badge n =
    if n == 0
    then none
    else some (decimal n ++ (codes " non lue" ++ (if ltb 1 n then codes "s" else [])))

-- `TYPE_STYLE[n.level] || TYPE_STYLE.INFO`
pub data Style : Type 0 where
  critical_style warning_style info_style : Style

unfoldable pub style_of : Text → Style
style_of level =
    if text_eq level (codes "CRITICAL")
    then critical_style
    else (if text_eq level (codes "WARNING") then warning_style else info_style)

-- `s.replace(' ', 'T')`: the first space only.
unfoldable pub replace_space : Text → Text
replace_space [] = []
replace_space (c ∷ s) = let rest = replace_space s in if c == b' ' then b'T' ∷ s else c ∷ rest

unfoldable pub has_t : Text → Bool
has_t [] = false
has_t (c ∷ s) = c == b'T' || has_t s

-- `iso`
unfoldable pub iso_of : Text → Text
unfolding replace_space has_t
iso_of s = if has_t s then s else replace_space s ++ codes "Z"

-- A card of the list.
pub record Card : Type 0 where
  pub id : ℕ
  pub style : Style
  pub title : Text
  pub has_dot : Bool
  pub level : Text
  pub time : Text
  pub body : Option Text
  pub container : Option Text
  pub host : Option Text

abbrev pub shown : Text → Option Text
shown [] = none
shown (c ∷ s) = some (c ∷ s)

pub record View : Type 0 where
  pub badge : Option Text
  pub has_mark_button : Bool
  pub cards : List Card
  -- The sentence in place of an empty list.
  pub is_empty_list : Bool

module _ (to_locale : Text → Text) where
  -- `fmtTime`
  unfoldable pub fmt_time : Text → Text
  unfolding iso_of
  fmt_time s = if is_empty s then [] else to_locale (iso_of s)

  unfoldable pub card : Notification → Card
  unfolding fmt_time style_of
  card n = record {
    id = n.id;
    style = style_of n.level;
    title = n.title;
    has_dot = not n.read;
    level = n.level;
    time = fmt_time n.timestamp;
    body = shown n.body;
    container = shown n.container_name;
    host = shown n.host;
  }

  -- `NotificationsView`
  unfoldable pub view : Filter → List Notification → View
  unfolding filtered unread badge card
  view f ns = record {
    badge = badge (unread ns);
    has_mark_button = ltb 0 (unread ns);
    cards = map card (filtered f ns);
    is_empty_list = length (filtered f ns) == 0;
  }
