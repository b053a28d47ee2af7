-- ===== src/App/Sidebar.antt =====
-- internal/web/frontend/src/components/Sidebar.jsx: the entries of the navigation.
use safe_dock.Common.{
  ℕ, ◌≡◌, arith, List, [], ◌∷◌, ◌++◌, map, Bool, true, false, not, ◌||◌, Option, none, some, String,
  text_eq, ltb, leb, length, keep, any, All,
}
use safe_dock.App.{
  Page, dashboard, containers, audit, watch, notifications, settings, actions, agents, exceptions,
  users, compliance, Role, viewer, auditor, admin, other, is_admin_role, page_id,
}
use safe_dock.App.Screens.{view, content_of}

-- An item of a group; `minRole` is 'auditor' or missing.
pub record Item : Type 0 where
  pub id : Page
  pub min_role : Option Role

pub record Group : Type 0 where
  pub title : String
  pub admin_only : Bool
  pub items : List Item

abbrev item : Page → Item
item p = record { id = p; min_role = none }

abbrev auditors_item : Page → Item
auditors_item p = record { id = p; min_role = some auditor }

-- `NAV_GROUPS`
abbrev pub nav_groups : List Group
nav_groups =
    record {
      title = "Supervision";
      admin_only = false;
      items =
          item dashboard
          ∷ item containers
          ∷ item compliance
          ∷ auditors_item audit
          ∷ item watch
          ∷ auditors_item notifications
          ∷ [];
    }
    ∷ record {
      title = "Administration";
      admin_only = true;
      items = item users ∷ item agents ∷ item actions ∷ item exceptions ∷ item settings ∷ [];
    }
    ∷ []

-- `rank[role] || 1`
rank : Option Role → ℕ
rank (some auditor) = 2
rank (some admin) = 3
rank _ = 1

allowed_items : Role → Group → Group
allowed_items role g = record g {
  items = keep (λ i. leb (rank i.min_role) (rank (some role))) g.items;
}

-- `groups`
unfoldable pub groups : Role → List Group
unfolding rank allowed_items
groups role =
    keep (λ g. ltb 0 (length g.items))
      (map (allowed_items role) (keep (λ g. not g.admin_only || is_admin_role role) nav_groups))

-- The pages that have a button, from top to bottom.
abbrev pub buttons : List Group → List Page
buttons [] = []
buttons (g ∷ gs) = map (λ i. i.id) g.items ++ buttons gs

unfoldable pub has_button : Role → Page → Bool
has_button role p = any (λ q. text_eq (page_id p) (page_id q)) (buttons (groups role))

-- Every button of the navigation leads its user to the view of its page, never to the notice that
-- access is denied; and an administrator has all the buttons that any other role has.
groups-content_of :
    (role : Role)
    → All
        (λ p. (content_of (is_admin_role role) p ≡ view p) × (has_button admin p ≡ true))
        (buttons (groups role))
unfolding groups content_of is_admin_role has_button page_id text_eq rank
groups-content_of viewer = ground arith
groups-content_of auditor = ground arith
groups-content_of admin = ground arith
groups-content_of other = ground arith
