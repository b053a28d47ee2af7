-- ===== src/Visible/Tests.antt =====
-- Two hosts with a container each; the one on the first host has a tag.
use safe_dock.Common.{◌≡◌, refl, List, [], ◌∷◌, true, false, codes, text_eq, keep}
use safe_dock.Common.Decimal.{decimal}
use safe_dock.Scope.{Scope}
use safe_dock.Tags.{Store, key, delete_tag}
use safe_dock.Visible.{
  User, Container, can_see, host_ok, tag_ok, tag_ids, indexed, handle_containers, ensure_scope,
  list_assignments, drop_from_scope, handle_scope,
}
use safe_dock.Visible.Agreement.{listed-ensure_scope}
use safe_dock.Visible.Dropped.{dropped-ensure_scope}
use safe_dock.Visible.Saved.{allows, saved-can_see}

abbrev store : Store
store = record {
  next_id = 3;
  tags = (record { id = 1; name = codes "web" }) ∷ (record { id = 2; name = codes "prod" }) ∷ [];
  assignments = (record { tag_id = 1; host_id = 7; container_name = codes "api" }) ∷ [];
}

abbrev containers : List Container
containers = (7, codes "api") ∷ (8, codes "api") ∷ (7, codes "db") ∷ []

abbrev viewer : User
viewer = record {
  is_admin = false;
  scope_all = false;
  allowed_tags = 1 ∷ 2 ∷ [];
  allowed_hosts = 7 ∷ [];
}

handled : handle_containers viewer store containers ≡ (7, codes "api") ∷ []
unfolding handle_containers can_see host_ok tag_ok indexed key decimal text_eq
handled = refl

listed-ensure_scope_example :
    (handle_containers viewer store containers ≡ keep (ensure_scope viewer store) containers)
    × (list_assignments viewer store
        ≡ keep (λ a. ensure_scope viewer store (a.host_id, a.container_name)) store.assignments)
listed-ensure_scope_example = listed-ensure_scope viewer store containers

dropped-ensure_scope_example : ensure_scope viewer store (7, codes "api") ≡ true
unfolding ensure_scope can_see host_ok tag_ok tag_ids delete_tag drop_from_scope text_eq
dropped-ensure_scope_example = dropped-ensure_scope viewer store 2 (7, codes "api") refl refl

-- An account with one tag, which is deleted: it then sees all of its host.
abbrev tagged : User
tagged = record {
  is_admin = false;
  scope_all = false;
  allowed_tags = 1 ∷ [];
  allowed_hosts = 7 ∷ [];
}

before_deletion : ensure_scope tagged store (7, codes "db") ≡ false
unfolding ensure_scope can_see host_ok tag_ok tag_ids text_eq
before_deletion = refl

after_deletion : ensure_scope (drop_from_scope 1 tagged) (delete_tag 1 store) (7, codes "db") ≡ true
unfolding ensure_scope can_see host_ok tag_ok tag_ids delete_tag drop_from_scope text_eq
after_deletion = refl

abbrev chosen : Scope
chosen = record { scope_all = false; tags = 2 ∷ 2 ∷ []; hosts = [] }

saved-can_see_example :
    can_see (handle_scope chosen viewer) 8 (1 ∷ 2 ∷ []) ≡ allows chosen 8 (1 ∷ 2 ∷ [])
saved-can_see_example = saved-can_see viewer chosen 8 (1 ∷ 2 ∷ []) refl
