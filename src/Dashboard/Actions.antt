-- ===== src/Dashboard/Actions.antt =====
-- Which actions the dashboard asks for.
use mathlib.Core.List.{Perm}
use mathlib.Core.Path.{subst, sym}
use safe_dock.Common.{
  ◌≡◌, ◌↔◌, refl, arith, false, List, [], ◌∷◌, ◌++◌, All, drop, take-append-drop, map, length-take,
  eq-nil_iff,
}
use safe_dock.Common.Sort.{sort_by-perm, IsSorted}
use safe_dock.Common.Sort.Order.{sort_by-IsSorted, take-IsSorted, length-sort_by}
use safe_dock.Fleet.{RawContainer, Container, process, score_of, is_update_available}
use safe_dock.Dashboard.{
  Action, actions_of, collect, less_urgent, sorted_actions, top_actions, action_panel,
  none_required,
}

-- The dashboard asks for no action on a container exactly if its score is 100, although the two are
-- computed in different places.
actions_of-eq-nil_iff :
    (r : RawContainer) → (actions_of (process r) ≡ []) ↔ ((process r).score ≡ 100)
unfolding actions_of process score_of is_update_available
actions_of-eq-nil_iff r = ground arith

sorted_actions-IsSorted : (cs : List Container) → IsSorted less_urgent (sorted_actions cs)
unfolding sorted_actions
sorted_actions-IsSorted cs =
    sort_by-IsSorted less_urgent (λ a b h. ground arith) (λ a b c h k. ground arith) (collect cs)

-- The three actions that the dashboard lists are the most urgent ones: the list continues to a
-- rearrangement of all the actions, in which no action that is left out is more urgent than one
-- that is listed.
top_actions-urgent :
    (cs : List Container)
    → (rest : List Action) × Perm (top_actions cs ++ rest) (collect cs)
      × All (λ a. All (λ b. less_urgent a b ≡ false) rest) (top_actions cs)
unfolding top_actions
top_actions-urgent cs = (
  drop 3 (sorted_actions cs),
  subst (λ l. Perm l (collect cs)) (sym (take-append-drop 3 (sorted_actions cs)))
      (sort_by-perm less_urgent (collect cs)),
  take-IsSorted less_urgent 3 (sorted_actions cs) (sorted_actions-IsSorted cs),
)

append-nil_iff : (xs ys : List Action) → (xs ++ ys ≡ []) ↔ ((xs ≡ []) × (ys ≡ []))
append-nil_iff [] ys = ground arith
append-nil_iff (x ∷ xs) ys = ground arith

collect-eq-nil_iff :
    (rs : List RawContainer)
    → (collect (map process rs) ≡ []) ↔ All (λ r. (process r).score ≡ 100) rs
unfolding collect
collect-eq-nil_iff [] = (λ _. tt, λ _. refl)
collect-eq-nil_iff (r ∷ rs) = (
  λ e.
      let both = (append-nil_iff (actions_of (process r)) (collect (map process rs))).0 e in
      ((actions_of-eq-nil_iff r).0 both.0, (collect-eq-nil_iff rs).0 both.1),
  λ h.
      (append-nil_iff (actions_of (process r)) (collect (map process rs))).1
        ((actions_of-eq-nil_iff r).1 h.0, (collect-eq-nil_iff rs).1 h.1),
)

panel_iff : (cs : List Container) → (action_panel cs ≡ none_required) ↔ (collect cs ≡ [])
unfolding action_panel top_actions sorted_actions
panel_iff cs = ground (
  arith,
  length-take 3 (sorted_actions cs),
  length-sort_by less_urgent (collect cs),
  eq-nil_iff (collect cs),
)

-- 'Aucune action requise' is shown exactly if every container of the answer scores 100.
action_panel-none_iff :
    (rs : List RawContainer)
    → (action_panel (map process rs) ≡ none_required) ↔ All (λ r. (process r).score ≡ 100) rs
action_panel-none_iff rs =
    let panel = panel_iff (map process rs) in
    let empty = collect-eq-nil_iff rs in (λ e. empty.0 (panel.0 e), λ h. panel.1 (empty.1 h))
