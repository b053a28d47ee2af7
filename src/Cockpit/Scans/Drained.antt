-- ===== src/Cockpit/Scans/Drained.antt =====
-- The spinners of the cockpit stop.
use safe_dock.Common.{
  ◌≡◌, refl, arith, ℕ, zero, suc, ◌-◌, map, ap, ◌∙◌, ◌≤◌, List, [], ◌∷◌, ◌++◌, Bool, true, false,
  Option, none, some, Text, codes, if◌then◌else◌, length,
}
use safe_dock.Cockpit.{Vulnerability}
use safe_dock.Cockpit.Scans.{
  Answer, good, refused, failed, Job, begin, take_answer, finish, Point, History, begin_history,
  finish_history, Assessment, Cockpit, opened, Effect, Event, mounted, trivy_pressed,
  dockle_pressed, history_pressed, save_pressed, delete_pressed, engine_chosen, severity_chosen,
  root_chosen, privilege_chosen, trivy_answered, dockle_answered, history_answered, save_answered,
  delete_answered, overrides_changed, status_faded, scan, pick, on_saved, on_deleted, step, run,
}

-- A spinner turns only while a request is on its way.
abbrev IsAwaited : Cockpit → Type 0
IsAwaited c =
    (c.trivy.running ≡ 0 → c.trivy.loading ≡ false)
    × (c.dockle.running ≡ 0 → c.dockle.loading ≡ false)
    × (c.history.running ≡ 0 → c.history.loading ≡ false)

finish-rests :
    {A : Type 0} (n : ℕ) (label : Text) (a : Answer A) (j : Job A)
    → j.running ≡ n
    → (n ≡ 0 → j.loading ≡ false)
    → (finish n label a j).loading ≡ false
unfolding finish take_answer
finish-rests zero label a j p h = h refl
finish-rests (suc n) label (good r) j p h = refl
finish-rests (suc n) label refused j p h = refl
finish-rests (suc n) label (failed m) j p h = refl

finish_history-rests :
    (n : ℕ) (a : Answer (List Point)) (h : History)
    → (n ≡ 0 → h.loading ≡ false)
    → (finish_history n a h).loading ≡ false
unfolding finish_history
finish_history-rests zero a h k = k refl
finish_history-rests (suc n) a h k = refl

scan-IsAwaited : (engine : Text) (c : Cockpit) → IsAwaited c → IsAwaited (scan engine c).0
unfolding scan begin
scan-IsAwaited engine c h = (λ p. absurd (omega arith), h.1, h.2)

on_saved-IsAwaited :
    (found : Option Text) (rest : List Text) (ok : Bool) (c : Cockpit)
    → IsAwaited c
    → IsAwaited (on_saved found rest ok c).0
unfolding on_saved
on_saved-IsAwaited none rest ok c h = h
on_saved-IsAwaited (some e) rest true c h = scan-IsAwaited e _ h
on_saved-IsAwaited (some e) rest false c h = h

on_deleted-IsAwaited :
    (found : Option Text) (rest : List Text) (ok : Bool) (c : Cockpit)
    → IsAwaited c
    → IsAwaited (on_deleted found rest ok c).0
unfolding on_deleted
on_deleted-IsAwaited none rest ok c h = h
on_deleted-IsAwaited (some e) rest true c h = scan-IsAwaited e _ h
on_deleted-IsAwaited (some e) rest false c h = h

either-IsAwaited :
    (b : Bool) (x y : Cockpit × List Effect)
    → IsAwaited x.0
    → IsAwaited y.0
    → IsAwaited (if b then x else y).0
either-IsAwaited true x y h k = h
either-IsAwaited false x y h k = k

step-IsAwaited : (c : Cockpit) (e : Event) → IsAwaited c → IsAwaited (step c e).0
unfolding step begin begin_history
step-IsAwaited c mounted h =
    (λ p. absurd (omega arith), λ p. absurd (omega arith), λ p. absurd (omega arith))
step-IsAwaited c trivy_pressed h =
    either-IsAwaited c.trivy.loading (c, []) (scan c.form.engine c) h
      (scan-IsAwaited c.form.engine c h)
step-IsAwaited c dockle_pressed h =
    either-IsAwaited c.dockle.loading (c, []) _ h (h.0, λ p. absurd (omega arith), h.2)
step-IsAwaited c history_pressed h =
    either-IsAwaited c.history.loading (c, []) _ h (h.0, h.1, λ p. absurd (omega arith))
step-IsAwaited c save_pressed h = h
step-IsAwaited c delete_pressed h = h
step-IsAwaited c (engine_chosen v) h = h
step-IsAwaited c (severity_chosen v) h = h
step-IsAwaited c (root_chosen v) h = h
step-IsAwaited c (privilege_chosen v) h = h
step-IsAwaited c (trivy_answered a) h =
    (λ p. finish-rests c.trivy.running _ a c.trivy refl h.0, h.1, h.2)
step-IsAwaited c (dockle_answered a) h =
    (h.0, λ p. finish-rests c.dockle.running _ a c.dockle refl h.1, h.2)
step-IsAwaited c (history_answered a) h =
    (h.0, h.1, λ p. finish_history-rests c.history.running a c.history h.2)
step-IsAwaited c (save_answered n ok) h =
    on_saved-IsAwaited (pick n c.saves).0 (pick n c.saves).1 ok c h
step-IsAwaited c (delete_answered n ok) h =
    on_deleted-IsAwaited (pick n c.deletes).0 (pick n c.deletes).1 ok c h
step-IsAwaited c (overrides_changed o) h = h
step-IsAwaited c status_faded h = h

run-IsAwaited : (es : List Event) (c : Cockpit) → IsAwaited c → IsAwaited (run c es)
unfolding run
run-IsAwaited [] c h = h
run-IsAwaited (e ∷ es) c h = run-IsAwaited es (step c e).0 (step-IsAwaited c e h)

run-append : (xs ys : List Event) (c : Cockpit) → run c (xs ++ ys) ≡ run (run c xs) ys
unfolding run
run-append [] ys c = refl
run-append (x ∷ xs) ys c = run-append xs ys (step c x).0

finish-running :
    {A : Type 0} (n : ℕ) (label : Text) (a : Answer A) (j : Job A)
    → j.running ≡ n
    → (finish n label a j).running ≡ n - 1
unfolding finish take_answer
finish-running zero label a j p = omega arith
finish-running (suc n) label (good r) j p = omega arith
finish-running (suc n) label refused j p = omega arith
finish-running (suc n) label (failed m) j p = omega arith

finish_history-running :
    (n : ℕ) (a : Answer (List Point)) (h : History)
    → h.running ≡ n
    → (finish_history n a h).running ≡ n - 1
unfolding finish_history
finish_history-running zero a h p = omega arith
finish_history-running (suc n) a h p = omega arith

-- How many requests of each kind are on their way.
abbrev counts : Cockpit → ℕ × ℕ × ℕ
counts c = (c.trivy.running, c.dockle.running, c.history.running)

trivy_answered-counts :
    (rs : List (Answer (List Vulnerability))) (c : Cockpit)
    → counts (run c (map trivy_answered rs))
      ≡ (c.trivy.running - length rs, c.dockle.running, c.history.running)
unfolding run step
trivy_answered-counts [] c = ground arith
trivy_answered-counts (r ∷ rs) c = ground (
  arith,
  trivy_answered-counts rs (step c (trivy_answered r)).0,
  finish-running c.trivy.running (codes "Erreur de scan") r c.trivy refl,
)

dockle_answered-counts :
    (rs : List (Answer (List Assessment))) (c : Cockpit)
    → counts (run c (map dockle_answered rs))
      ≡ (c.trivy.running, c.dockle.running - length rs, c.history.running)
unfolding run step
dockle_answered-counts [] c = ground arith
dockle_answered-counts (r ∷ rs) c = ground (
  arith,
  dockle_answered-counts rs (step c (dockle_answered r)).0,
  finish-running c.dockle.running (codes "Erreur Dockle") r c.dockle refl,
)

history_answered-counts :
    (rs : List (Answer (List Point))) (c : Cockpit)
    → counts (run c (map history_answered rs))
      ≡ (c.trivy.running, c.dockle.running, c.history.running - length rs)
unfolding run step
history_answered-counts [] c = ground arith
history_answered-counts (r ∷ rs) c = ground (
  arith,
  history_answered-counts rs (step c (history_answered r)).0,
  finish_history-running c.history.running r c.history refl,
)

-- The answers, whatever they are, to what is on its way.
unfoldable pub answers :
    List (Answer (List Vulnerability))
    → List (Answer (List Assessment))
    → List (Answer (List Point))
    → List Event
answers rs ds hs = map trivy_answered rs ++ (map dockle_answered ds ++ map history_answered hs)

answers-counts :
    (rs : List (Answer (List Vulnerability))) (ds : List (Answer (List Assessment)))
    (hs : List (Answer (List Point))) (c : Cockpit)
    → counts (run c (answers rs ds hs))
      ≡ (c.trivy.running - length rs, c.dockle.running - length ds, c.history.running - length hs)
unfolding answers
answers-counts rs ds hs c =
    let c1 = run c (map trivy_answered rs) in
    let c2 = run c1 (map dockle_answered ds) in
    ground (
      arith,
      run-append (map trivy_answered rs) (map dockle_answered ds ++ map history_answered hs) c,
      run-append (map dockle_answered ds) (map history_answered hs) c1,
      trivy_answered-counts rs c,
      dockle_answered-counts ds c1,
      history_answered-counts hs c2,
    )

-- The spinners stop: after any session of the page, overlapping scans, saves and deletions included,
-- once each request on its way has been answered, by a report, a refusal or an error, none of the
-- three tabs shows that it is loading.
pub run-drained :
    (es : List Event) (rs : List (Answer (List Vulnerability)))
    (ds : List (Answer (List Assessment))) (hs : List (Answer (List Point)))
    → let c = run opened es in
      let d = run c (answers rs ds hs) in
      c.trivy.running ≤ length rs
      → c.dockle.running ≤ length ds
      → c.history.running ≤ length hs
      → (d.trivy.loading ≡ false) × (d.dockle.loading ≡ false) × (d.history.loading ≡ false)
run-drained es rs ds hs tr dk hi =
    let c = run opened es in
    let awaited =
      run-IsAwaited (answers rs ds hs) c
        (run-IsAwaited es opened (λ _. refl, λ _. refl, λ _. refl)) in
    let n = answers-counts rs ds hs c in
    (
      awaited.0 (ap (λ (k : ℕ × ℕ × ℕ). k.0) n ∙ (omega arith)),
      awaited.1 (ap (λ (k : ℕ × ℕ × ℕ). k.1) n ∙ (omega arith)),
      awaited.2 (ap (λ (k : ℕ × ℕ × ℕ). k.2) n ∙ (omega arith)),
    )
