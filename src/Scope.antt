-- ===== src/Scope.antt =====
-- `ScopeEditor` and the page that opens it, of internal/web/frontend/src/components/UsersView.jsx: which tags and hosts a user may
-- see. A `Set` is the list of its elements in the order in which they came.
pub mod Toggles
mod Tests
use safe_dock.Common.{
  ℕ, List, [], ◌∷◌, ◌++◌, Bool, true, false, not, Option, none, some, ◌==◌, if◌then◌else◌, any,
  keep,
}
use safe_dock.Fleet.{or_nil}

-- `set.has(id)`
abbrev pub has : ℕ → List ℕ → Bool
has i set = any (λ j. j == i) set

-- `set.add(id)`
abbrev pub add : ℕ → List ℕ → List ℕ
add i set = if has i set then set else set ++ i ∷ []

-- `set.delete(id)`
abbrev pub delete : ℕ → List ℕ → List ℕ
delete i set = keep (λ j. not (j == i)) set

-- `new Set(ids)`
unfoldable pub set_from : List ℕ → List ℕ → List ℕ
set_from set [] = set
set_from set (i ∷ is) = set_from (add i set) is

-- `toggle`
unfoldable pub toggle : ℕ → List ℕ → List ℕ
toggle i set = if has i set then delete i set else add i set

-- The state, and what `onSave` is given of it.
pub record Scope : Type 0 where
  pub scope_all : Bool
  pub tags : List ℕ
  pub hosts : List ℕ

-- The state at first, from the user's record; a missing list is empty.
unfoldable pub opened : Bool → (allowed_tags allowed_hosts : Option (List ℕ)) → Scope
opened scope_all allowed_tags allowed_hosts = record {
  scope_all = scope_all;
  tags = set_from [] (or_nil allowed_tags);
  hosts = set_from [] (or_nil allowed_hosts);
}

pub data Event : Type 0 where
  all_chosen : Bool → Event
  tag_pressed host_pressed : ℕ → Event

-- The buttons of the tags and hosts are there only while not everything is allowed.
unfoldable pub step : Scope → Event → Scope
step s (all_chosen b) = record s { scope_all = b }
step s (tag_pressed i) = if s.scope_all then s else record s { tags = toggle i s.tags }
step s (host_pressed i) = if s.scope_all then s else record s { hosts = toggle i s.hosts }

unfoldable pub run : Scope → List Event → Scope
run s [] = s
run s (e ∷ es) = run (step s e) es

-- What the editor takes of an item of `users`.
pub record Account : Type 0 where
  pub id : ℕ
  pub scope_all : Bool
  pub allowed_tags : Option (List ℕ)
  pub allowed_hosts : Option (List ℕ)

-- The editor while it is mounted: the id of `scopeEdit`, and the editor's own state.
pub record Editor : Type 0 where
  pub account : ℕ
  pub scope : Scope

pub data PageEvent : Type 0 where
  -- The button 'Portée' of a row.
  row_pressed : Account → PageEvent
  edited : Event → PageEvent
  save_pressed close_pressed : PageEvent
  -- The request of a save comes to its end: whether it was accepted.
  save_answered : Bool → PageEvent

pub data Effect : Type 0 where
  quiet : Effect
  -- `onSetScope(scopeEdit.id, payload)`
  post_scope : (account : ℕ) → Scope → Effect

-- `setScopeEdit(u)`: the editor has no key, so that one that is open keeps its state.
unfoldable pub open_editor : Account → Option Editor → Editor
open_editor a none = record {
  account = a.id;
  scope = opened a.scope_all a.allowed_tags a.allowed_hosts;
}
open_editor a (some e) = record e { account = a.id }

unfoldable pub page_step : Option Editor → PageEvent → Option Editor × Effect
page_step p (row_pressed a) = (some (open_editor a p), quiet)
page_step (some e) (edited v) = (some (record e { scope = step e.scope v }), quiet)
page_step (some e) save_pressed = (some e, post_scope e.account e.scope)
page_step p close_pressed = (none, quiet)
page_step p (save_answered true) = (none, quiet)
page_step p _ = (p, quiet)

unfoldable pub page_run : Option Editor → List PageEvent → Option Editor
page_run p [] = p
page_run p (e ∷ es) = page_run (page_step p e).0 es
