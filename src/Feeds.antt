-- ===== src/Feeds.antt =====
-- The lists that internal/web/frontend/src/App.jsx fetches for its pages, and its handlers that post a
-- change and fetch lists again. What an answer holds is left open: `none` stands for a `null`, which is
-- shown as an empty list.
pub mod Due
pub mod Fresh
mod Tests
use safe_dock.Common.{
  ℕ, zero, suc, List, [], ◌∷◌, ◌++◌, Bool, true, false, Option, none, some, ◌==◌, if◌then◌else◌,
}
use safe_dock.Common.Flight.{pick}
use safe_dock.App.{Answer, unauthorized, json, broken}

pub data Feed : Type 0 where
  config containers audit_logs registries overrides exceptions : Feed
  tags assignments notifications hosts users security_audit : Feed

index : Feed → ℕ
index config = 0
index containers = 1
index audit_logs = 2
index registries = 3
index overrides = 4
index exceptions = 5
index tags = 6
index assignments = 7
index notifications = 8
index hosts = 9
index users = 10
index security_audit = 11

unfoldable pub same_feed : Feed → Feed → Bool
unfolding index
same_feed f g = index f == index g

-- The handlers that post a change.
pub data Change : Type 0 where
  create_user delete_user set_role reset_password reset_mfa set_scope : Change
  create_tag delete_tag assign_tag mark_read add_host delete_host : Change
  save_settings add_registry delete_registry add_exception delete_exception : Change
  save_override delete_override roll_out own_password own_profile : Change

abbrev polled : List Feed
polled = containers ∷ audit_logs ∷ []

-- `fetchAllData`, with whether the role is `admin`.
unfoldable pub all_feeds : Bool → List Feed
all_feeds is_admin =
    config
    ∷ containers
    ∷ audit_logs
    ∷ registries
    ∷ overrides
    ∷ exceptions
    ∷ tags
    ∷ assignments
    ∷ notifications
    ∷ (if is_admin then hosts ∷ users ∷ security_audit ∷ [] else [])

-- What is fetched again when a change has been confirmed.
unfoldable pub asked_after : Bool → Change → List Feed
asked_after is_admin create_user = users ∷ []
asked_after is_admin delete_user = users ∷ []
asked_after is_admin set_role = users ∷ []
asked_after is_admin reset_password = []
asked_after is_admin reset_mfa = users ∷ []
asked_after is_admin set_scope = users ∷ []
asked_after is_admin create_tag = tags ∷ []
asked_after is_admin delete_tag = tags ∷ assignments ∷ containers ∷ []
asked_after is_admin assign_tag = assignments ∷ containers ∷ []
asked_after is_admin mark_read = notifications ∷ []
asked_after is_admin add_host = hosts ∷ []
asked_after is_admin delete_host = hosts ∷ []
asked_after is_admin save_settings = config ∷ []
asked_after is_admin add_registry = registries ∷ []
asked_after is_admin delete_registry = registries ∷ []
asked_after is_admin add_exception = exceptions ∷ []
asked_after is_admin delete_exception = exceptions ∷ []
asked_after is_admin save_override = overrides ∷ []
asked_after is_admin delete_override = overrides ∷ []
asked_after is_admin roll_out = all_feeds is_admin
asked_after is_admin own_password = []
-- The session is checked again, which is an event of its own.
asked_after is_admin own_profile = []

pub record Feeds (A : Type 0) : Type 0 where
  pub authed : Bool
  pub admin : Bool
  pub is_refreshing : Bool
  pub shown : Feed → Option A
  -- The fetches on their way, and the changes, each with what its closure will fetch again.
  pub fetches : List Feed
  pub changes : List (List Feed)

pub data Event (A : Type 0) : Type 0 where
  -- `checkSession` finds a session, of an admin or not.
  session_found : Bool → Event A
  -- The timer of ten seconds.
  polled_again : Event A
  refresh_pressed : Event A
  -- A second after both answers.
  refresh_over : Event A
  changed : Change → Event A
  -- The change with this number, among those on their way, is confirmed or not.
  confirmed : ℕ → Bool → Event A
  -- The fetch with this number, among those on their way, is answered.
  answered : ℕ → Answer (Option A) → Event A
  left : Event A

module _ {A : Type 0} where
  unfoldable pub fetch : List Feed → Feeds A → Feeds A
  fetch fs s = record s { fetches = s.fetches ++ fs }

  unfoldable pub set_list : Feed → Option A → Feeds A → Feeds A
  set_list f o s = record s { shown = λ g. if same_feed g f then o else s.shown g }

  -- `handleJson`, the `then` and the `catch` of a fetch.
  unfoldable pub receive : Feed → Answer (Option A) → Feeds A → Feeds A
  receive f unauthorized s = record s { authed = false }
  receive f (json o) s = set_list f o s
  receive f broken s = s

  unfoldable pub on_answer : Option Feed → List Feed → Answer (Option A) → Feeds A → Feeds A
  unfolding receive
  on_answer none rest a s = s
  on_answer (some f) rest a s = receive f a (record s { fetches = rest })

  unfoldable pub on_confirmed : Option (List Feed) → List (List Feed) → Bool → Feeds A → Feeds A
  on_confirmed none rest ok s = s
  on_confirmed (some fs) rest true s = fetch fs (record s { changes = rest })
  on_confirmed (some fs) rest false s = record s { changes = rest }

  -- The effect on `authed`, which loads everything when a session begins.
  unfoldable pub enter : Bool → Feeds A → Feeds A
  enter b s =
      if s.authed
      then record s { admin = b }
      else fetch (all_feeds b) (record s { authed = true; admin = b })

  unfoldable pub poll : Feeds A → Feeds A
  poll s = if s.authed then fetch polled s else s

  unfoldable pub step : Feeds A → Event A → Feeds A
  unfolding pick
  step s (session_found b) = enter b s
  step s polled_again = poll s
  step s refresh_pressed = fetch polled (record s { is_refreshing = true })
  step s refresh_over = record s { is_refreshing = false }
  step s (changed c) = record s { changes = s.changes ++ asked_after s.admin c ∷ [] }
  step s (confirmed n ok) = let (found, rest) = pick n s.changes in on_confirmed found rest ok s
  step s (answered n a) = let (found, rest) = pick n s.fetches in on_answer found rest a s
  step s left = record s { authed = false }

  unfoldable pub run : Feeds A → List (Event A) → Feeds A
  run s [] = s
  run s (e ∷ es) = run (step s e) es
