-- ===== src/Audit/Report.antt =====
-- What the panel of AuditView.jsx shows.
use safe_dock.Common.{
  ◌≡◌, refl, ap, ◌∙◌, ℕ, zero, suc, ◌+◌, arith, List, [], ◌∷◌, ◌++◌, Option, none, some, Text, keep,
}
use mathlib.Core.Path.{subst}
use safe_dock.Common.Flight.{pick}
use safe_dock.Trim.{trim}
use safe_dock.Audit.{
  Phase, idle, scanning, done, error, Results, Audit, initial, Reply, rejected, refused, reported,
  tag_or_latest, Event, image_typed, tag_typed, quick_filled, filter_chosen, submitted, replied,
  is_disabled, submit, finish, on_reply, step, Panel, passes, results_panel, panel, screen,
}

-- An observer of the requests, which are numbered from 1: how many have been sent, those on their way,
-- and the last report with the request that it has answered.
pub record Seen : Type 0 where
  pub sent : ℕ
  pub requests : List (ℕ × (Text × Text))
  pub report : Option ((ℕ × (Text × Text)) × Option Results)

abbrev pub nothing_seen : Seen
nothing_seen = record { sent = 0; requests = []; report = none }

abbrev see_request : Option (Text × Text) → Seen → Seen
see_request none s = s
see_request (some q) s = record s {
  sent = suc s.sent;
  requests = s.requests ++ (suc s.sent, q) ∷ [];
}

abbrev see_reply : Option (ℕ × (Text × Text)) × List (ℕ × (Text × Text)) → Reply → Seen → Seen
see_reply (some q, rest) (reported r) s = record s { requests = rest; report = some (q, r) }
see_reply (some q, rest) r s = record s { requests = rest }
see_reply (none, rest) r s = s

unfoldable pub see : Audit → Event → Seen → Seen
see a (replied n r) s = see_reply (pick n s.requests) r s
see a e s = see_request (step a e).1 s

unfoldable pub run : Audit → Seen → List Event → Audit × Seen
run a s [] = (a, s)
run a s (e ∷ es) = run (step a e).0 (see a e s) es

-- Just the last request is on its way.
abbrev IsLast : List (Text × Text) → List (ℕ × (Text × Text)) → ℕ → Type 0
IsLast (q ∷ []) ((k, p) ∷ []) n = (k ≡ n) × (p ≡ q)
IsLast _ _ n = ⊥

abbrev IsAnswer : Option ((ℕ × (Text × Text)) × Option Results) → ℕ → Option Results → Type 0
IsAnswer none n r = ⊥
IsAnswer (some ((k, q), o)) n r = (k ≡ n) × (o ≡ r)

abbrev Fits : Phase → Audit → Seen → Type 0
Fits idle a s = (a.running ≡ []) × (s.requests ≡ [])
Fits scanning a s = IsLast a.running s.requests s.sent × (a.results ≡ none)
Fits done a s = (a.running ≡ []) × (s.requests ≡ []) × IsAnswer s.report s.sent a.results
Fits error a s = (a.running ≡ []) × (s.requests ≡ [])

abbrev at : Phase → List (Text × Text) → Audit → Audit
at f rs a = record a { phase = f; running = rs }

abbrev seen_at : List (ℕ × (Text × Text)) → Seen → Seen
seen_at qs s = record s { requests = qs }

reply-Fits :
    (f : Phase) (rs : List (Text × Text)) (qs : List (ℕ × (Text × Text)))
    → (n : ℕ) (r : Reply) (a : Audit) (s : Seen) → Fits f (at f rs a) (seen_at qs s)
    → let b = step (at f rs a) (replied n r) in
      Fits b.0.phase b.0 (see (at f rs a) (replied n r) (seen_at qs s))
unfolding step see on_reply finish pick
reply-Fits scanning (q ∷ []) (k ∷ []) zero (rejected m) a s h = (refl, refl)
reply-Fits scanning (q ∷ []) (k ∷ []) zero (refused status m) a s h = (refl, refl)
reply-Fits scanning (q ∷ []) (k ∷ []) zero (reported results) a s h = (refl, refl, (h.0.0, refl))
reply-Fits scanning (q ∷ []) (k ∷ []) (suc n) r a s h = h
reply-Fits scanning [] qs n r a s h = absurd h.0
reply-Fits scanning (q ∷ []) [] n r a s h = absurd h.0
reply-Fits scanning (q ∷ []) (k ∷ l ∷ ks) n r a s h = absurd h.0
reply-Fits scanning (q ∷ p ∷ rs) qs n r a s h = absurd h.0
reply-Fits idle [] [] n r a s h = h
reply-Fits done [] [] n r a s h = h
reply-Fits error [] [] n r a s h = h
reply-Fits idle (q ∷ rs) qs n r a s h = cc
reply-Fits done (q ∷ rs) qs n r a s h = cc
reply-Fits error (q ∷ rs) qs n r a s h = cc
reply-Fits idle [] (k ∷ qs) n r a s h = cc
reply-Fits done [] (k ∷ qs) n r a s h = cc
reply-Fits error [] (k ∷ qs) n r a s h = cc

submit-Fits :
    (f : Phase) (a : Audit) (s : Seen)
    → a.phase ≡ f
    → Fits f a s
    → Fits (step a submitted).0.phase (step a submitted).0 (see a submitted s)
unfolding step see submit is_disabled
submit-Fits scanning a s e h = ground arith
submit-Fits idle a s e h = ground arith
submit-Fits done a s e h = ground arith
submit-Fits error a s e h = ground arith

step-Fits :
    (a : Audit) (s : Seen) (e : Event)
    → Fits a.phase a s
    → Fits (step a e).0.phase (step a e).0 (see a e s)
unfolding step see
step-Fits a s (image_typed v) h = ground arith
step-Fits a s (tag_typed v) h = ground arith
step-Fits a s (quick_filled i t) h = ground arith
step-Fits a s (filter_chosen f) h = ground arith
step-Fits a s submitted h = submit-Fits a.phase a s refl h
step-Fits a s (replied n r) h = reply-Fits a.phase a.running s.requests n r a s h

run-Fits :
    (es : List Event) (a : Audit) (s : Seen)
    → Fits a.phase a s
    → Fits (run a s es).0.phase (run a s es).0 (run a s es).1
unfolding run
run-Fits [] a s h = h
run-Fits (e ∷ es) a s h = run-Fits es (step a e).0 (see a e s) (step-Fits a s e h)

-- What the panel is made of.
record IsPanelOf (a : Audit) (p : Panel) (r : Results) : Type 0 where
  kept : a.results ≡ some r
  at_end : a.phase ≡ done
  made : results_panel r (trim a.image) (tag_or_latest a.tag) a.filter ≡ p

screen-panel : (a : Audit) (p : Panel) → screen a ≡ panel p → (r : Results) × IsPanelOf a p r
unfolding screen
screen-panel a p h = go a.phase a.results refl refl h
  where
    go :
        (f : Phase) (o : Option Results)
        → a.phase ≡ f
        → a.results ≡ o
        → screen (record a { phase = f; results = o }) ≡ panel p
        → (r : Results) × IsPanelOf a p r
    go idle o e k shown = cc
    go scanning o e k shown = cc
    go error o e k shown = cc
    go done none e k shown = cc
    go done (some r) e k shown = (r, record { kept = k; at_end = e; made = cc })

last_report :
    (o : Option ((ℕ × (Text × Text)) × Option Results)) (n : ℕ) (results : Option Results)
    (r : Results)
    → IsAnswer o n results
    → results ≡ some r
    → (q : Text × Text) × (o ≡ some ((n, q), some r))
last_report none n results r h e = absurd h
last_report (some ((k, q), o)) n results r h e =
    (q, ap some (ap (λ i. ((i, q), o)) h.0 ∙ ap (λ x. ((n, q), x)) (h.1 ∙ e)))

-- The report that is shown is never a stale one: in every session, with the answers to requests in any
-- order, when the panel is on the screen, it counts and lists the vulnerabilities of the report that
-- has answered the last request that was sent, those that pass the filter.
pub run-panel :
    (es : List Event) (p : Panel)
    → screen (run initial nothing_seen es).0 ≡ panel p
    → let (a, s) = run initial nothing_seen es in
      (q : Text × Text) × (r : Results) × (s.report ≡ some ((s.sent, q), some r))
      × (keep (passes a.filter) r.vulnerabilities ≡ p.entries)
      × (r.critical + r.high + r.medium + r.low ≡ p.total)
unfolding results_panel
run-panel es p h =
    let (a, s) = run initial nothing_seen es in
    let (r, made_of) = screen-panel a p h in
    let fit =
      subst (λ f. Fits f a s) made_of.at_end (run-Fits es initial nothing_seen (refl, refl)) in
    let (q, answered) = last_report s.report s.sent a.results r fit.2 made_of.kept in
    (
      q,
      r,
      answered,
      ap (λ (q : Panel). q.entries) made_of.made,
      ap (λ (q : Panel). q.total) made_of.made,
    )

screen_done :
    (a : Audit) (r : Results)
    → a.phase ≡ done
    → a.results ≡ some r
    → screen a ≡ panel (results_panel r (trim a.image) (tag_or_latest a.tag) a.filter)
unfolding screen
screen_done a r e k = ground arith

-- The panel does not name the image that was scanned, but the one in the field: when another name
-- is typed behind a scan, the panel stays on the screen with the same figures and the same verdict,
-- and gives them to the image whose name has been typed.
step-image_typed :
    (a : Audit) (p : Panel) (v : Text)
    → screen a ≡ panel p
    → screen (step a (image_typed v)).0 ≡ panel (record p { image = trim v })
unfolding step results_panel
step-image_typed a p v h =
    let (r, made_of) = screen-panel a p h in
    screen_done (record a { image = v }) r made_of.at_end made_of.kept
    ∙ ap (λ (q : Panel). panel (record q { image = trim v })) made_of.made
