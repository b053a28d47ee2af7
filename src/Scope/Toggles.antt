-- ===== src/Scope/Toggles.antt =====
-- What pressing the buttons of the scope editor amounts to.
use safe_dock.Common.{
  ℕ, ◌≡◌, refl, sym, ap, ◌∙◌, arith, List, [], ◌∷◌, ◌++◌, Bool, true, false, not, ◌||◌, ◌&&◌,
  Option, none, some, ◌==◌,
}
use safe_dock.Fleet.{or_nil}
use safe_dock.Scope.{
  has, add, delete, set_from, toggle, Scope, opened, Event, all_chosen, tag_pressed, host_pressed,
  step, run, Account, Editor, PageEvent, row_pressed, edited, save_pressed, close_pressed,
  save_answered, Effect, quiet, post_scope, open_editor, page_step, page_run,
}

has-append : (i j : ℕ) (set : List ℕ) → has i (set ++ j ∷ []) ≡ (has i set || (j == i))
has-append i j [] = ground arith
has-append i j (k ∷ set) = ground (arith, has-append i j set)

has-delete : (i j : ℕ) (set : List ℕ) → has i (delete j set) ≡ (has i set && not (j == i))
has-delete i j [] = refl
has-delete i j (k ∷ set) = ground (arith, has-delete i j set)

has-same : (i j : ℕ) (set : List ℕ) → (j == i) ≡ true → has i set ≡ has j set
has-same i j set e = ground arith

abbrev pub flip_if : Bool → Bool → Bool
flip_if true b = not b
flip_if false b = b

has-toggle : (i j : ℕ) (set : List ℕ) → has i (toggle j set) ≡ flip_if (j == i) (has i set)
unfolding toggle
has-toggle i j set = ground (arith, has-append i j set, has-delete i j set, has-same i j set)

has-add : (i j : ℕ) (set : List ℕ) → has i (add j set) ≡ (has i set || (j == i))
has-add i j set = ground (arith, has-append i j set, has-same i j set)

pub has-set_from : (i : ℕ) (set is : List ℕ) → has i (set_from set is) ≡ (has i set || has i is)
unfolding set_from
has-set_from i set [] = ground arith
has-set_from i set (j ∷ js) = ground (arith, has-set_from i (add j set) js, has-add i j set)

-- Whether the button of a tag, or of a host, has been pressed an odd number of times while it was
-- there.
abbrev pub pressed_tag : Bool → ℕ → List Event → Bool
pressed_tag all i [] = false
pressed_tag all i (all_chosen b ∷ es) = pressed_tag b i es
pressed_tag all i (tag_pressed j ∷ es) = flip_if (not all && (j == i)) (pressed_tag all i es)
pressed_tag all i (host_pressed j ∷ es) = pressed_tag all i es

abbrev pub pressed_host : Bool → ℕ → List Event → Bool
pressed_host all i [] = false
pressed_host all i (all_chosen b ∷ es) = pressed_host b i es
pressed_host all i (tag_pressed j ∷ es) = pressed_host all i es
pressed_host all i (host_pressed j ∷ es) = flip_if (not all && (j == i)) (pressed_host all i es)

run-has_tag :
    (es : List Event) (s : Scope) (i : ℕ)
    → has i (run s es).tags ≡ flip_if (pressed_tag s.scope_all i es) (has i s.tags)
unfolding run step
run-has_tag [] s i = refl
run-has_tag (all_chosen b ∷ es) s i = run-has_tag es (record s { scope_all = b }) i
run-has_tag (tag_pressed j ∷ es) s i =
    ground (arith, run-has_tag es (step s (tag_pressed j)) i, has-toggle i j s.tags)
run-has_tag (host_pressed j ∷ es) s i = ground (arith, run-has_tag es (step s (host_pressed j)) i)

run-has_host :
    (es : List Event) (s : Scope) (i : ℕ)
    → has i (run s es).hosts ≡ flip_if (pressed_host s.scope_all i es) (has i s.hosts)
unfolding run step
run-has_host [] s i = refl
run-has_host (all_chosen b ∷ es) s i = run-has_host es (record s { scope_all = b }) i
run-has_host (tag_pressed j ∷ es) s i = ground (arith, run-has_host es (step s (tag_pressed j)) i)
run-has_host (host_pressed j ∷ es) s i =
    ground (arith, run-has_host es (step s (host_pressed j)) i, has-toggle i j s.hosts)

abbrev pub last_choice : Bool → List Event → Bool
last_choice all [] = all
last_choice all (all_chosen b ∷ es) = last_choice b es
last_choice all (e ∷ es) = last_choice all es

run-scope_all : (es : List Event) (s : Scope) → (run s es).scope_all ≡ last_choice s.scope_all es
unfolding run step
run-scope_all [] s = refl
run-scope_all (all_chosen b ∷ es) s = run-scope_all es (record s { scope_all = b })
run-scope_all (tag_pressed j ∷ es) s = ground (arith, run-scope_all es (step s (tag_pressed j)))
run-scope_all (host_pressed j ∷ es) s = ground (arith, run-scope_all es (step s (host_pressed j)))

run-append : (es : List Event) (e : Event) (s : Scope) → run s (es ++ e ∷ []) ≡ step (run s es) e
unfolding run
run-append [] e s = refl
run-append (d ∷ es) e s = run-append es e (step s d)

-- What is seen of an open editor: the account whose row has opened it, the account whose row was
-- pressed last, and what has been pressed in it since it was opened.
pub record Seen : Type 0 where
  pub first : Account
  pub last : ℕ
  pub presses : List Event

abbrev pub see : PageEvent → Option Seen → Option Seen
see (row_pressed a) none = some (record { first = a; last = a.id; presses = [] })
see (row_pressed a) (some s) = some (record s { last = a.id })
see (edited e) (some s) = some (record s { presses = s.presses ++ e ∷ [] })
see close_pressed s = none
see (save_answered true) s = none
see _ s = s

unfoldable pub see_all : Option Seen → List PageEvent → Option Seen
see_all s [] = s
see_all s (e ∷ es) = see_all (see e s) es

-- The scope that a save sends, for a tag or a host.
abbrev pub IsScope : ℕ → Effect → Option Seen → Type 0
IsScope i quiet none = Unit
IsScope i (post_scope account s) (some seen) =
    (account ≡ seen.last)
    × (s.scope_all ≡ last_choice seen.first.scope_all seen.presses)
    × (has i s.tags
        ≡ flip_if (pressed_tag seen.first.scope_all i seen.presses)
            (has i (or_nil seen.first.allowed_tags)))
    × (has i s.hosts
        ≡ flip_if (pressed_host seen.first.scope_all i seen.presses)
            (has i (or_nil seen.first.allowed_hosts)))
IsScope i _ _ = ⊥

abbrev opened_for : Account → Scope
opened_for a = opened a.scope_all a.allowed_tags a.allowed_hosts

abbrev Tracks : Option Editor → Option Seen → Type 0
Tracks none none = Unit
Tracks (some e) (some s) = (e.account ≡ s.last) × (e.scope ≡ run (opened_for s.first) s.presses)
Tracks _ _ = ⊥

step-Tracks :
    (e : PageEvent) (p : Option Editor) (s : Option Seen)
    → Tracks p s
    → Tracks (page_step p e).0 (see e s)
unfolding page_step open_editor run
step-Tracks (row_pressed a) none none h = (refl, refl)
step-Tracks (row_pressed a) (some e) (some s) h = (refl, h.1)
step-Tracks (edited v) none none h = h
step-Tracks (edited v) (some e) (some s) h =
    (h.0, ap (λ (t : Scope). step t v) h.1 ∙ sym (run-append s.presses v (opened_for s.first)))
step-Tracks save_pressed none none h = h
step-Tracks save_pressed (some e) (some s) h = h
step-Tracks (row_pressed a) none (some s) h = absurd h
step-Tracks (row_pressed a) (some e) none h = absurd h
step-Tracks (edited v) none (some s) h = absurd h
step-Tracks (edited v) (some e) none h = absurd h
step-Tracks save_pressed none (some s) h = absurd h
step-Tracks save_pressed (some e) none h = absurd h
step-Tracks close_pressed p s h = tt
step-Tracks (save_answered true) p s h = tt
step-Tracks (save_answered false) none none h = h
step-Tracks (save_answered false) (some e) (some s) h = h
step-Tracks (save_answered false) none (some s) h = absurd h
step-Tracks (save_answered false) (some e) none h = absurd h

run-Tracks :
    (es : List PageEvent) (p : Option Editor) (s : Option Seen)
    → Tracks p s
    → Tracks (page_run p es) (see_all s es)
unfolding page_run see_all
run-Tracks [] p s h = h
run-Tracks (e ∷ es) p s h = run-Tracks es (page_step p e).0 (see e s) (step-Tracks e p s h)

save-IsScope :
    (i : ℕ) (p : Option Editor) (s : Option Seen)
    → Tracks p s
    → IsScope i (page_step p save_pressed).1 s
unfolding page_step opened
save-IsScope i none none h = tt
save-IsScope i none (some s) h = absurd h
save-IsScope i (some e) none h = absurd h
save-IsScope i (some e) (some s) h =
    let a = s.first in
    let o = opened_for a in
    (
      h.0,
      ap (λ (t : Scope). t.scope_all) h.1 ∙ run-scope_all s.presses o,
      ap (λ (t : Scope). has i t.tags) h.1
          ∙ run-has_tag s.presses o i
          ∙ ap (flip_if (pressed_tag a.scope_all i s.presses))
              (has-set_from i [] (or_nil a.allowed_tags)),
      ap (λ (t : Scope). has i t.hosts) h.1
          ∙ run-has_host s.presses o i
          ∙ ap (flip_if (pressed_host a.scope_all i s.presses))
              (has-set_from i [] (or_nil a.allowed_hosts)),
    )

-- What a save of the editor sends, in every session: the choice of everything is the last one made, and
-- a tag or a host is in the scope exactly if the account for which the editor was opened had it and its
-- button was pressed an even number of times since, or it had not and the button was pressed an odd
-- number of times; presses count only while the buttons are there. It goes to the account whose row was
-- pressed last, which is another one if a second row is pressed while the editor is open. Without an
-- editor nothing is sent.
pub run-has :
    (es : List PageEvent) (i : ℕ)
    → IsScope i (page_step (page_run none es) save_pressed).1 (see_all none es)
run-has es i = save-IsScope i (page_run none es) (see_all none es) (run-Tracks es none none tt)
