-- ===== src/Feeds/Due.antt =====
-- Which lists a change concerns, told apart from what App.jsx fetches: by the tables of
-- internal/db/db.go that the handlers of internal/api and internal/auth read for a list, and write for
-- a change.
use safe_dock.Common.{
  ◌≡◌, refl, arith, ℕ, List, [], ◌∷◌, Bool, true, false, not, ◌&&◌, ◌||◌, ◌==◌, any,
}
use safe_dock.Feeds.{
  Feed, same_feed, Change, asked_after, config, containers, audit_logs, registries, overrides,
  exceptions, tags, assignments, notifications, hosts, users, security_audit, create_user,
  delete_user, set_role, reset_password, reset_mfa, set_scope, create_tag, delete_tag, assign_tag,
  mark_read, add_host, delete_host, save_settings, add_registry, delete_registry, add_exception,
  delete_exception, save_override, delete_override, roll_out, own_password, own_profile,
}

-- The tables, and the engines of the hosts, which list their containers.
pub data Table : Type 0 where
  settings_table registries_table audit_logs_table container_settings_table : Table
  hosts_table cve_exceptions_table scan_reports_table users_table : Table
  tags_table container_tags_table security_audit_table notifications_table : Table
  user_allowed_tags_table user_allowed_hosts_table engines : Table

abbrev number : Table → ℕ
number settings_table = 0
number registries_table = 1
number audit_logs_table = 2
number container_settings_table = 3
number hosts_table = 4
number cve_exceptions_table = 5
number scan_reports_table = 6
number users_table = 7
number tags_table = 8
number container_tags_table = 9
number security_audit_table = 10
number notifications_table = 11
number user_allowed_tags_table = 12
number user_allowed_hosts_table = 13
number engines = 14

abbrev is_in : Table → List Table → Bool
is_in t ts = any (λ u. number t == number u) ts

-- What the answer of a list is made of.
unfoldable pub reads : Feed → List Table
reads config = settings_table ∷ []
reads containers =
    hosts_table ∷ container_tags_table ∷ tags_table ∷ scan_reports_table ∷ engines ∷ []
reads audit_logs = audit_logs_table ∷ []
reads registries = registries_table ∷ []
reads overrides = container_settings_table ∷ []
reads exceptions = cve_exceptions_table ∷ []
reads tags = tags_table ∷ []
reads assignments = container_tags_table ∷ []
reads notifications = notifications_table ∷ []
reads hosts = hosts_table ∷ []
reads users = users_table ∷ user_allowed_tags_table ∷ user_allowed_hosts_table ∷ []
reads security_audit = security_audit_table ∷ []

-- What the handler of a change writes.
unfoldable pub writes : Change → List Table
writes create_user = users_table ∷ security_audit_table ∷ []
writes delete_user =
    users_table ∷ user_allowed_tags_table ∷ user_allowed_hosts_table ∷ security_audit_table ∷ []
writes set_role = users_table ∷ security_audit_table ∷ []
writes reset_password = users_table ∷ security_audit_table ∷ []
writes reset_mfa = users_table ∷ security_audit_table ∷ []
writes set_scope =
    users_table ∷ user_allowed_tags_table ∷ user_allowed_hosts_table ∷ security_audit_table ∷ []
writes create_tag = tags_table ∷ security_audit_table ∷ []
writes delete_tag =
    tags_table ∷ container_tags_table ∷ user_allowed_tags_table ∷ security_audit_table ∷ []
writes assign_tag = container_tags_table ∷ security_audit_table ∷ []
writes mark_read = notifications_table ∷ []
writes add_host = hosts_table ∷ []
writes delete_host = hosts_table ∷ []
writes save_settings = settings_table ∷ []
writes add_registry = registries_table ∷ []
writes delete_registry = registries_table ∷ []
writes add_exception = cve_exceptions_table ∷ []
writes delete_exception = cve_exceptions_table ∷ []
writes save_override = container_settings_table ∷ []
writes delete_override = container_settings_table ∷ []
writes roll_out = engines ∷ scan_reports_table ∷ audit_logs_table ∷ notifications_table ∷ []
writes own_password = users_table ∷ security_audit_table ∷ []
writes own_profile = users_table ∷ security_audit_table ∷ []

unfoldable pub concerns : Change → Feed → Bool
unfolding reads writes
concerns c f = any (λ t. is_in t (writes c)) (reads f)

-- The lists that are there for the role.
unfoldable pub is_open_to : Bool → Feed → Bool
is_open_to is_admin hosts = is_admin
is_open_to is_admin users = is_admin
is_open_to is_admin security_audit = is_admin
is_open_to is_admin f = true

-- The lists that a change concerns and that are not fetched behind it. The page of the accounts does
-- not show whether a password must be changed, and a new tag is on no container; the other lists are
-- stale: the journal of the accounts behind each of its entries, the accounts behind the deletion of a
-- tag of their scopes and behind the change of one's own name, and the containers behind a new or
-- deleted host, until they are polled.
unfoldable pub is_left_out : Change → Feed → Bool
is_left_out c security_audit = true
is_left_out reset_password users = true
is_left_out own_password users = true
is_left_out create_tag containers = true
is_left_out delete_tag users = true
is_left_out own_profile users = true
is_left_out add_host containers = true
is_left_out delete_host containers = true
is_left_out c f = false

-- A list that the page owes behind a change.
unfoldable pub is_due : Bool → Change → Feed → Bool
unfolding concerns is_open_to is_left_out
is_due is_admin c f = is_open_to is_admin f && concerns c f && not (is_left_out c f)

abbrev is_met : Bool → Change → Feed → Bool
is_met is_admin c f = not (is_due is_admin c f) || any (same_feed f) (asked_after is_admin c)

every_feed : (Feed → Bool) → Bool
every_feed t =
    t config
    && t containers
    && t audit_logs
    && t registries
    && t overrides
    && t exceptions
    && t tags
    && t assignments
    && t notifications
    && t hosts
    && t users
    && t security_audit

each_feed : (t : Feed → Bool) → every_feed t ≡ true → (f : Feed) → t f ≡ true
unfolding every_feed
each_feed t h config = ground arith
each_feed t h containers = ground arith
each_feed t h audit_logs = ground arith
each_feed t h registries = ground arith
each_feed t h overrides = ground arith
each_feed t h exceptions = ground arith
each_feed t h tags = ground arith
each_feed t h assignments = ground arith
each_feed t h notifications = ground arith
each_feed t h hosts = ground arith
each_feed t h users = ground arith
each_feed t h security_audit = ground arith

all_met : (b : Bool) (c : Change) → every_feed (is_met b c) ≡ true
unfolding every_feed is_due concerns is_open_to is_left_out reads writes same_feed asked_after
    safe_dock.Feeds.all_feeds
all_met true create_user = refl
all_met false create_user = refl
all_met true delete_user = refl
all_met false delete_user = refl
all_met true set_role = refl
all_met false set_role = refl
all_met true reset_password = refl
all_met false reset_password = refl
all_met true reset_mfa = refl
all_met false reset_mfa = refl
all_met true set_scope = refl
all_met false set_scope = refl
all_met true create_tag = refl
all_met false create_tag = refl
all_met true delete_tag = refl
all_met false delete_tag = refl
all_met true assign_tag = refl
all_met false assign_tag = refl
all_met true mark_read = refl
all_met false mark_read = refl
all_met true add_host = refl
all_met false add_host = refl
all_met true delete_host = refl
all_met false delete_host = refl
all_met true save_settings = refl
all_met false save_settings = refl
all_met true add_registry = refl
all_met false add_registry = refl
all_met true delete_registry = refl
all_met false delete_registry = refl
all_met true add_exception = refl
all_met false add_exception = refl
all_met true delete_exception = refl
all_met false delete_exception = refl
all_met true save_override = refl
all_met false save_override = refl
all_met true delete_override = refl
all_met false delete_override = refl
all_met true roll_out = refl
all_met false roll_out = refl
all_met true own_password = refl
all_met false own_password = refl
all_met true own_profile = refl
all_met false own_profile = refl

-- Each list that is due behind a change is fetched.
pub due-asked :
    (is_admin : Bool) (c : Change) (f : Feed)
    → is_due is_admin c f ≡ true
    → any (same_feed f) (asked_after is_admin c) ≡ true
due-asked b c f h =
    let met : is_met b c f ≡ true = each_feed (is_met b c) (all_met b c) f in ground (arith, met)
