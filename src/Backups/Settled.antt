-- ===== src/Backups/Settled.antt =====
-- The panel against what the server keeps.
use mathlib.Core.Path.{subst}
use safe_dock.Common.{
  ℕ, zero, suc, ◌≡◌, refl, sym, arith, List, [], ◌∷◌, Bool, true, false, ◌&&◌, Option, none, some,
}
use safe_dock.Backups.{
  Config, Save, Panel, initial, Event, loaded, toggled, keep_chosen, answered, begin, take_out,
  settle, step,
}

abbrev pub panel : Config → List Save → Panel
panel shown ss = record { shown = shown; running = ss }

-- The settings of the server: the last ones that it has accepted.
abbrev accept : Bool → Option Save → Config → Config
accept accepted none stored = stored
accept true (some s) stored = s.sent
accept false (some s) stored = stored

abbrev pub keep_track : Panel → Event → Config → Config
keep_track p (answered n accepted) stored = accept accepted (take_out n p.running).0 stored
keep_track p _ stored = stored

unfoldable pub run : Panel → Config → List Event → Panel × Config
run p stored [] = (p, stored)
run p stored (e ∷ es) = run (step p e) (keep_track p e stored) es

-- Nothing is chosen while a save runs, and nothing is loaded: an answer of /api/backups may have been
-- sent before a save that has been accepted since.
abbrev waits_for : Event → List Save → Bool
waits_for (loaded o) ss = false
waits_for (answered n accepted) ss = true
waits_for e [] = true
waits_for e (s ∷ ss) = false

unfoldable pub is_orderly : Panel → List Event → Bool
is_orderly p [] = true
is_orderly p (e ∷ es) = waits_for e p.running && is_orderly (step p e) es

-- One save runs at most, and it can be taken back to what the server keeps.
abbrev Agrees : List Save → Config → Config → Type 0
Agrees [] shown stored = shown ≡ stored
Agrees (s ∷ []) shown stored = (s.previous ≡ stored) × (s.sent ≡ shown)
Agrees (s ∷ t ∷ ss) shown stored = ⊥

step-Agrees :
    (e : Event) (shown stored : Config) (ss : List Save)
    → waits_for e ss ≡ true
    → Agrees ss shown stored
    → Agrees
        (step (panel shown ss) e).running
        (step (panel shown ss) e).shown
        (keep_track (panel shown ss) e stored)
unfolding step begin take_out settle
step-Agrees (loaded o) shown stored ss h a = cc
step-Agrees (toggled b) shown stored [] h a = (a, refl)
step-Agrees (toggled b) shown stored (s ∷ ss) h a = cc
step-Agrees (keep_chosen n) shown stored [] h a = (a, refl)
step-Agrees (keep_chosen n) shown stored (s ∷ ss) h a = cc
step-Agrees (answered n accepted) shown stored [] h a = a
step-Agrees (answered zero true) shown stored (s ∷ []) h a = sym a.1
step-Agrees (answered zero false) shown stored (s ∷ []) h a = a.0
step-Agrees (answered (suc n) accepted) shown stored (s ∷ []) h a = a
step-Agrees (answered n accepted) shown stored (s ∷ t ∷ ss) h a = absurd a

run-Agrees :
    (es : List Event) (shown stored : Config) (ss : List Save)
    → is_orderly (panel shown ss) es ≡ true
    → Agrees ss shown stored
    → Agrees
        (run (panel shown ss) stored es).0.running
        (run (panel shown ss) stored es).0.shown
        (run (panel shown ss) stored es).1
unfolding run is_orderly
run-Agrees [] shown stored ss h a = a
run-Agrees (e ∷ es) shown stored ss h a =
    let q = step (panel shown ss) e in
    run-Agrees es q.shown (keep_track (panel shown ss) e stored) q.running (ground arith)
      (step-Agrees e shown stored ss (ground arith) a)

-- If the user waits for each answer before the next choice, the panel is right whenever it is idle: it
-- has opened with the settings that the server keeps; however many choices the server has accepted or
-- refused since, with no other answer of /api/backups in between, and an answer of failure only to a
-- choice that has not been stored, with no save running it shows the settings that the server keeps.
pub run-settled :
    (es : List Event) (c : Config)
    → is_orderly (panel c []) es ≡ true
    → (run initial c (loaded (some c) ∷ es)).0.running ≡ []
    → (run initial c (loaded (some c) ∷ es)).0.shown ≡ (run initial c (loaded (some c) ∷ es)).1
unfolding run step
run-settled es c h idle =
    let (q, stored) = run (panel c []) c es in
    subst (λ ss. Agrees ss q.shown stored) idle (run-Agrees es c c [] h refl)

-- Two choices that overlap can leave the panel wrong: from any settings that panel and server share,
-- if a choice is followed by a second one before its answer, the second is accepted and then the
-- first refused, the panel is idle and shows the settings from before both, while the server keeps
-- the second choice.
run-overlap :
    (c : Config) (b : Bool) (n : ℕ)
    → let es = toggled b ∷ keep_chosen n ∷ answered 1 true ∷ answered 0 false ∷ [] in
      let (q, stored) = run (record { shown = c; running = [] }) c es in
      (q.running ≡ []) × (q.shown ≡ c) × (stored ≡ record { enabled = b; keep = n })
unfolding run step begin take_out settle
run-overlap c b n = (refl, refl, refl)

-- An old answer of /api/backups can leave the panel wrong: if it was sent before a choice, and comes
-- behind the acceptance of the choice, the panel shows the settings from before it.
run-stale :
    (c : Config) (b : Bool)
    → let es = toggled b ∷ answered 0 true ∷ loaded (some c) ∷ [] in
      let (q, stored) = run (panel c []) c es in
      (q.running ≡ []) × (q.shown ≡ c) × (stored ≡ record c { enabled = b })
unfolding run step begin take_out settle
run-stale c b = (refl, refl, refl)
