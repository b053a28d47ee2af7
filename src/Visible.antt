-- ===== src/Visible.antt =====
-- What an account may see: `canSeeContainer`, `HandleUserScope` and `HandleTagAssignments` of
-- internal/api/users.go, the filter of `handleContainers` and `ensureScope` in internal/api/handlers.go, and
-- the tables of the scopes in internal/db/db.go, for one account. The database is taken to work.
pub mod Agreement
pub mod Dropped
pub mod Saved
mod Tests
use safe_dock.Common.{
  ℕ, List, [], ◌∷◌, Bool, true, false, not, ◌&&◌, ◌||◌, Text, text_eq, ◌==◌, if◌then◌else◌, any,
  keep, length,
}
use safe_dock.Scope.{Scope, set_from}
use safe_dock.Tags.{Assignment, Store, key, delete_tag}

-- The part of `db.User` that says what the account sees.
pub record User : Type 0 where
  pub is_admin : Bool
  pub scope_all : Bool
  pub allowed_tags : List ℕ
  pub allowed_hosts : List ℕ

-- A container, by its host and its name.
abbrev pub Container : Type 0
Container = ℕ × Text

-- `containerTagIDs[t]`
abbrev pub holds : (ids : List ℕ) → ℕ → Bool
holds ids t = any (λ i. i == t) ids

-- `hostOK` and `tagOK`
unfoldable pub host_ok : (allowed : List ℕ) (host_id : ℕ) → Bool
host_ok [] h = true
host_ok (g ∷ gs) h = any (λ i. i == h) (g ∷ gs)

unfoldable pub tag_ok : (allowed ids : List ℕ) → Bool
tag_ok [] ids = true
tag_ok (t ∷ ts) ids = any (holds ids) (t ∷ ts)

abbrev pub is_unrestricted : (allowed : List ℕ) → Bool
is_unrestricted [] = true
is_unrestricted (i ∷ is) = false

-- `canSeeContainer`
unfoldable pub can_see : User → (host_id : ℕ) (ids : List ℕ) → Bool
unfolding host_ok tag_ok
can_see u h ids =
    if u.is_admin || u.scope_all
    then true
    else (if is_unrestricted u.allowed_hosts && is_unrestricted u.allowed_tags
        then false
        else host_ok u.allowed_hosts h && tag_ok u.allowed_tags ids)

-- `ctagIndex[key]`
unfoldable pub indexed : Text → List Assignment → List ℕ
indexed k [] = []
indexed k (a ∷ rows) =
    let rest = indexed k rows in
    if text_eq (key a.host_id a.container_name) k then a.tag_id ∷ rest else rest

-- `TagIDsForContainer`
unfoldable pub tag_ids : (host_id : ℕ) (container_name : Text) → List Assignment → List ℕ
tag_ids h n [] = []
tag_ids h n (a ∷ rows) =
    let rest = tag_ids h n rows in
    if a.host_id == h && text_eq a.container_name n then a.tag_id ∷ rest else rest

-- The containers of the answer of /api/containers.
unfoldable pub handle_containers : User → Store → List Container → List Container
unfolding can_see indexed
handle_containers u s cs = keep (λ c. can_see u c.0 (indexed (key c.0 c.1) s.assignments)) cs

-- `ensureScope`
unfoldable pub ensure_scope : User → Store → Container → Bool
unfolding can_see tag_ids
ensure_scope u s c =
    if u.is_admin || u.scope_all then true else can_see u c.0 (tag_ids c.0 c.1 s.assignments)

-- The assignments that `HandleTagAssignments` lists.
unfoldable pub list_assignments : User → Store → List Assignment
unfolding can_see indexed
list_assignments u s =
    if not u.is_admin && not u.scope_all
    then keep (λ a. can_see u a.host_id (indexed (key a.host_id a.container_name) s.assignments))
        s.assignments
    else s.assignments

-- `HandleUserScope`, with what `onSave` gives: the rows are deleted, and put again without repetitions.
unfoldable pub handle_scope : Scope → User → User
unfolding set_from
handle_scope sc u = record u {
  scope_all = sc.scope_all;
  allowed_tags = set_from [] sc.tags;
  allowed_hosts = set_from [] sc.hosts;
}

-- `DeleteTag`, which also deletes the rows of the tag in the scopes.
unfoldable pub drop_from_scope : (tag_id : ℕ) → User → User
drop_from_scope t u = record u { allowed_tags = keep (λ i. not (i == t)) u.allowed_tags }
