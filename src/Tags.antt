-- ===== src/Tags.antt =====
-- The tags of the containers, from the button to the page: `toggleTag` of
-- internal/web/frontend/src/components/ContainerDetailView.jsx, `HandleTags`, `HandleTagsDelete` and
-- `HandleTagAssignments` of internal/api/users.go with the tables of internal/db/db.go, and the tags
-- that `handleContainers` of internal/api/handlers.go puts on a container. The roles, the journal and the
-- colours are left out; the database is taken to work. `strings.TrimSpace` is a parameter.
pub mod Shown
pub mod Toggled
mod Tests
use safe_dock.Common.{
  ℕ, suc, ◌+◌, List, [], ◌∷◌, ◌++◌, Bool, true, false, not, ◌&&◌, ◌||◌, Text, codes, is_empty,
  text_eq, ◌==◌, if◌then◌else◌, keep, any,
}
use safe_dock.Common.Decimal.{decimal}

pub record Tag : Type 0 where
  pub id : ℕ
  pub name : Text

-- A row of `container_tags`.
pub record Assignment : Type 0 where
  pub tag_id : ℕ
  pub host_id : ℕ
  pub container_name : Text

-- The tables; `next_id` is the number that AUTOINCREMENT gives next.
pub record Store : Type 0 where
  pub next_id : ℕ
  pub tags : List Tag
  pub assignments : List Assignment

-- A new database.
abbrev pub empty_store : Store
empty_store = record { next_id = 1; tags = []; assignments = [] }

pub data Request : Type 0 where
  new_tag : (name : Text) → Request
  drop_tag : (id : ℕ) → Request
  assign unassign : (tag_id host_id : ℕ) (container_name : Text) → Request

unfoldable pub is_row : (tag_id host_id : ℕ) (container_name : Text) → Assignment → Bool
is_row t h n a = a.tag_id == t && (a.host_id == h && text_eq a.container_name n)

-- `CreateTag`: the name is UNIQUE.
unfoldable pub insert_tag : Text → Store → Store × Bool
insert_tag name s = if any (λ t. text_eq t.name name) s.tags then (s, false) else (
  record s {
    next_id = suc s.next_id;
    tags = s.tags ++ (record { id = s.next_id; name = name }) ∷ [];
  },
  true,
)

-- `DeleteTag`
unfoldable pub delete_tag : ℕ → Store → Store
delete_tag id s = record s {
  tags = keep (λ t. not (t.id == id)) s.tags;
  assignments = keep (λ a. not (a.tag_id == id)) s.assignments;
}

-- `AssignContainerTag`: INSERT OR IGNORE, since the three columns are UNIQUE.
unfoldable pub assign_tag : (tag_id host_id : ℕ) (container_name : Text) → Store → Store
assign_tag t h n s = if any (is_row t h n) s.assignments then s else record s {
  assignments = s.assignments ++ (record { tag_id = t; host_id = h; container_name = n }) ∷ [];
}

-- `UnassignContainerTag`
unfoldable pub unassign_tag : (tag_id host_id : ℕ) (container_name : Text) → Store → Store
unassign_tag t h n s = record s { assignments = keep (λ a. not (is_row t h n a)) s.assignments }

unfoldable pub is_complete : (tag_id : ℕ) (container_name : Text) → Bool
is_complete t n = not (is_empty n || t == 0)

-- `HandleTagAssignments`, with whether the action is `unassign`.
unfoldable pub handle_assignment :
    (unassigns : Bool) (tag_id host_id : ℕ) (container_name : Text) → Store → Store × Bool
handle_assignment unassigns t h n s =
    if is_complete t n
    then (if unassigns then unassign_tag t h n s else assign_tag t h n s, true)
    else (s, false)

module _ (trim_space : Text → Text) where
  -- The handlers: the tables, and whether the request is accepted.
  unfoldable pub serve : Request → Store → Store × Bool
  unfolding handle_assignment
  serve (new_tag name) s =
      if is_empty (trim_space name) then (s, false) else insert_tag (trim_space name) s
  serve (drop_tag id) s = if id == 0 then (s, false) else (delete_tag id s, true)
  serve (assign t h n) s = handle_assignment false t h n s
  serve (unassign t h n) s = handle_assignment true t h n s

  unfoldable pub run : Store → List Request → Store
  run s [] = s
  run s (r ∷ rs) = run (serve r s).0 rs

-- `fmt.Sprintf("%d|%s", a.HostID, a.ContainerName)`
unfoldable pub key : ℕ → Text → Text
key h n = decimal h ++ (b'|' ∷ n)

-- `tagName[id]`, which is empty for a tag that is gone.
unfoldable pub name_by_id : List Tag → ℕ → Text
name_by_id [] id = []
name_by_id (t ∷ ts) id = if t.id == id then t.name else name_by_id ts id

-- The names of the tags under a key; Go's map gives them in any order, here it is that of the table.
unfoldable pub names_under : List Tag → Text → List Assignment → List Text
unfolding key name_by_id
names_under tags k [] = []
names_under tags k (a ∷ rows) =
    let name = name_by_id tags a.tag_id in
    let rest = names_under tags k rows in
    if text_eq (key a.host_id a.container_name) k && not (is_empty name) then name ∷ rest else rest

-- The tags of a container in the answer of /api/containers.
unfoldable pub tags_of : Store → (host_id : ℕ) (container_name : Text) → List Text
tags_of s h n = names_under s.tags (key h n) s.assignments

-- `activeTags.includes(name)`
abbrev pub has_tag : Text → List Text → Bool
has_tag name names = any (λ m. text_eq m name) names

-- `toggleTag`
unfoldable pub toggle_tag : List Text → Tag → (host_id : ℕ) (container_name : Text) → Request
toggle_tag active t h n = if has_tag t.name active then unassign t.id h n else assign t.id h n
