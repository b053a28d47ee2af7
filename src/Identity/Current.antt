-- ===== src/Identity/Current.antt =====
-- When the page shows the key that the server holds.
use safe_dock.Common.{
  ◌≡◌, refl, List, [], ◌∷◌, Bool, true, false, Option, none, some, Text, if◌then◌else◌, ◌⊎◌, inl,
  inr,
}
use safe_dock.Identity.{
  given, refused, Trip, resting, sent, handled, State, opened, Event, load_handled, load_answered,
  load_lost, pressed, post_handled, post_answered, post_lost, loaded, regenerated, given_up,
  handle_load, handle_post, step, run,
}

-- The button is pressed when the load has come to its end, and no answer to it is lost or unreadable behind the
-- making of a new key.
abbrev pub is_orderly : Trip → Trip → Event → Bool
is_orderly resting p (pressed true) = true
is_orderly l p (pressed true) = false
is_orderly l (handled (given k)) (post_answered false) = false
is_orderly l (handled (given k)) post_lost = false
is_orderly l p e = true

module _ (fingerprint : Text → Text) where
  unfoldable pub AreOrderly : State → List Event → Type 0
  AreOrderly s [] = Unit
  AreOrderly s (e ∷ es) = (is_orderly s.load s.post e ≡ true) × AreOrderly (step fingerprint s e) es

  -- Nothing is shown yet, or the key of the server with its fingerprint.
  abbrev pub IsCurrent : State → Type 0
  IsCurrent s =
      ((s.ssh_pub ≡ []) × (s.ssh_fp ≡ [])) ⊎ ((s.ssh_pub ≡ s.key) × (s.ssh_fp ≡ fingerprint s.key))

  -- The trips of the requests, the state of the button and what is shown.
  pub data IsSound : (load post : Trip) → State → Type 0 where
    idle : (s : State) → s.regen ≡ false → IsCurrent s → IsSound resting resting s
    loading : (s : State) → s.regen ≡ false → IsCurrent s → IsSound sent resting s
    loads : (s : State) → s.regen ≡ false → IsCurrent s → IsSound (handled (given s.key)) resting s
    fails : (s : State) → s.regen ≡ false → IsCurrent s → IsSound (handled refused) resting s
    posting : (s : State) → s.regen ≡ true → IsCurrent s → IsSound resting sent s
    posted : (s : State) → s.regen ≡ true → IsSound resting (handled (given s.key)) s
    failed : (s : State) → s.regen ≡ true → IsCurrent s → IsSound resting (handled refused) s

  at : (l p : Trip) (s : State) → s.load ≡ l → s.post ≡ p → IsSound l p s → IsSound s.load s.post s
  at l p s e d h = simp (e, d) h

  loaded-IsSound :
      (l p : Trip) (s : State)
      → s.load ≡ l
      → s.post ≡ p
      → IsSound l p s
      → let t = loaded fingerprint l s in IsSound t.load t.post t
  unfolding loaded
  loaded-IsSound _ _ s e d (loads _ r c) = at resting resting _ refl d (idle _ r (inr (refl, refl)))
  loaded-IsSound _ _ s e d (fails _ r c) = at resting resting _ refl d (idle _ r c)
  loaded-IsSound _ _ s e d (idle _ r c) = at resting resting s e d (idle s r c)
  loaded-IsSound _ _ s e d (loading _ r c) = at sent resting s e d (loading s r c)
  loaded-IsSound _ _ s e d (posting _ r c) = at resting sent s e d (posting s r c)
  loaded-IsSound _ _ s e d (posted _ r) = at resting (handled (given s.key)) s e d (posted s r)
  loaded-IsSound _ _ s e d (failed _ r c) = at resting (handled refused) s e d (failed s r c)

  load_lost-IsSound :
      (l p : Trip) (s : State)
      → s.post ≡ p
      → IsSound l p s
      → let t = record s { load = resting } in IsSound t.load t.post t
  load_lost-IsSound _ _ s d (loads _ r c) = at resting resting _ refl d (idle _ r c)
  load_lost-IsSound _ _ s d (fails _ r c) = at resting resting _ refl d (idle _ r c)
  load_lost-IsSound _ _ s d (idle _ r c) = at resting resting _ refl d (idle _ r c)
  load_lost-IsSound _ _ s d (loading _ r c) = at resting resting _ refl d (idle _ r c)
  load_lost-IsSound _ _ s d (posting _ r c) = at resting sent _ refl d (posting _ r c)
  load_lost-IsSound _ _ s d (posted _ r) = at resting (handled (given s.key)) _ refl d (posted _ r)
  load_lost-IsSound _ _ s d (failed _ r c) = at resting (handled refused) _ refl d (failed _ r c)

  handle_load-IsSound :
      (b : Bool) (l p : Trip) (s : State)
      → s.load ≡ l
      → s.post ≡ p
      → IsSound l p s
      → let t = handle_load fingerprint b l s in IsSound t.load t.post t
  unfolding handle_load
  handle_load-IsSound true _ _ s e d (loading _ r c) =
      at (handled (given s.key)) resting _ refl d (loads _ r c)
  handle_load-IsSound false _ _ s e d (loading _ r c) =
      at (handled refused) resting _ refl d (fails _ r c)
  handle_load-IsSound b _ _ s e d (loads _ r c) =
      at (handled (given s.key)) resting s e d (loads s r c)
  handle_load-IsSound b _ _ s e d (fails _ r c) = at (handled refused) resting s e d (fails s r c)
  handle_load-IsSound b _ _ s e d (idle _ r c) = at resting resting s e d (idle s r c)
  handle_load-IsSound b _ _ s e d (posting _ r c) = at resting sent s e d (posting s r c)
  handle_load-IsSound b _ _ s e d (posted _ r) =
      at resting (handled (given s.key)) s e d (posted s r)
  handle_load-IsSound b _ _ s e d (failed _ r c) = at resting (handled refused) s e d (failed s r c)

  handle_post-IsSound :
      (o : Option Text) (l p : Trip) (s : State)
      → s.load ≡ l
      → s.post ≡ p
      → IsSound l p s
      → let t = handle_post fingerprint p o s in IsSound t.load t.post t
  unfolding handle_post
  handle_post-IsSound (some k) _ _ s e d (posting _ r c) =
      at resting (handled (given k)) _ e refl (posted _ r)
  handle_post-IsSound none _ _ s e d (posting _ r c) =
      at resting (handled refused) _ e refl (failed _ r c)
  handle_post-IsSound o _ _ s e d (idle _ r c) = at resting resting s e d (idle s r c)
  handle_post-IsSound o _ _ s e d (loading _ r c) = at sent resting s e d (loading s r c)
  handle_post-IsSound o _ _ s e d (loads _ r c) =
      at (handled (given s.key)) resting s e d (loads s r c)
  handle_post-IsSound o _ _ s e d (fails _ r c) = at (handled refused) resting s e d (fails s r c)
  handle_post-IsSound o _ _ s e d (posted _ r) =
      at resting (handled (given s.key)) s e d (posted s r)
  handle_post-IsSound o _ _ s e d (failed _ r c) = at resting (handled refused) s e d (failed s r c)

  regenerated-IsSound :
      (b : Bool) (l p : Trip) (s : State)
      → s.load ≡ l
      → s.post ≡ p
      → is_orderly l p (post_answered b) ≡ true
      → IsSound l p s
      → let t = regenerated fingerprint p b s in IsSound t.load t.post t
  unfolding regenerated
  regenerated-IsSound true _ _ s e d h (posted _ r) =
      at resting resting _ e refl (idle _ refl (inr (refl, refl)))
  regenerated-IsSound false _ _ s e d h (posted _ r) = cc
  regenerated-IsSound b _ _ s e d h (failed _ r c) = at resting resting _ e refl (idle _ refl c)
  regenerated-IsSound b _ _ s e d h (idle _ r c) = at resting resting s e d (idle s r c)
  regenerated-IsSound b _ _ s e d h (loading _ r c) = at sent resting s e d (loading s r c)
  regenerated-IsSound b _ _ s e d h (loads _ r c) =
      at (handled (given s.key)) resting s e d (loads s r c)
  regenerated-IsSound b _ _ s e d h (fails _ r c) = at (handled refused) resting s e d (fails s r c)
  regenerated-IsSound b _ _ s e d h (posting _ r c) = at resting sent s e d (posting s r c)

  given_up-IsSound :
      (l p : Trip) (s : State)
      → s.load ≡ l
      → s.post ≡ p
      → is_orderly l p post_lost ≡ true
      → IsSound l p s
      → let t = given_up fingerprint p s in IsSound t.load t.post t
  unfolding given_up
  given_up-IsSound _ _ s e d h (posting _ r c) = at resting resting _ e refl (idle _ refl c)
  given_up-IsSound _ _ s e d h (posted _ r) = cc
  given_up-IsSound _ _ s e d h (failed _ r c) = at resting resting _ e refl (idle _ refl c)
  given_up-IsSound _ _ s e d h (idle _ r c) = at resting resting s e d (idle s r c)
  given_up-IsSound _ _ s e d h (loading _ r c) = at sent resting s e d (loading s r c)
  given_up-IsSound _ _ s e d h (loads _ r c) =
      at (handled (given s.key)) resting s e d (loads s r c)
  given_up-IsSound _ _ s e d h (fails _ r c) = at (handled refused) resting s e d (fails s r c)

  pressed-IsSound :
      (l p : Trip) (s : State)
      → s.load ≡ l
      → s.post ≡ p
      → is_orderly l p (pressed true) ≡ true
      → IsSound l p s
      → let t = if s.regen then s else record s { regen = true; post = sent } in
        IsSound t.load t.post t
  pressed-IsSound _ _ s e d h (idle _ r c) = simp r (at resting sent _ e refl (posting _ refl c))
  pressed-IsSound _ _ s e d h (loading _ r c) = cc
  pressed-IsSound _ _ s e d h (loads _ r c) = cc
  pressed-IsSound _ _ s e d h (fails _ r c) = cc
  pressed-IsSound _ _ s e d h (posting _ r c) = simp r (at resting sent s e d (posting s r c))
  pressed-IsSound _ _ s e d h (posted _ r) =
      simp r (at resting (handled (given s.key)) s e d (posted s r))
  pressed-IsSound _ _ s e d h (failed _ r c) =
      simp r (at resting (handled refused) s e d (failed s r c))

  step-IsSound :
      (s : State) (e : Event)
      → is_orderly s.load s.post e ≡ true
      → IsSound s.load s.post s
      → let t = step fingerprint s e in IsSound t.load t.post t
  unfolding step
  step-IsSound s (load_handled b) h k = handle_load-IsSound b s.load s.post s refl refl k
  step-IsSound s load_answered h k = loaded-IsSound s.load s.post s refl refl k
  step-IsSound s load_lost h k = load_lost-IsSound s.load s.post s refl k
  step-IsSound s (pressed false) h k = k
  step-IsSound s (pressed true) h k = pressed-IsSound s.load s.post s refl refl h k
  step-IsSound s (post_handled o) h k = handle_post-IsSound o s.load s.post s refl refl k
  step-IsSound s (post_answered b) h k = regenerated-IsSound b s.load s.post s refl refl h k
  step-IsSound s post_lost h k = given_up-IsSound s.load s.post s refl refl h k

  run-IsSound :
      (es : List Event) (s : State)
      → AreOrderly s es
      → IsSound s.load s.post s
      → let t = run fingerprint s es in IsSound t.load t.post t
  unfolding AreOrderly run
  run-IsSound [] s h k = k
  run-IsSound (e ∷ es) s h k = run-IsSound es (step fingerprint s e) h.1 (step-IsSound s e h.0 k)

  resting-IsCurrent :
      (l p : Trip) (s : State) → IsSound l p s → p ≡ resting → (s.regen ≡ false) × IsCurrent s
  resting-IsCurrent _ _ s (idle _ r c) e = (r, c)
  resting-IsCurrent _ _ s (loading _ r c) e = (r, c)
  resting-IsCurrent _ _ s (loads _ r c) e = (r, c)
  resting-IsCurrent _ _ s (fails _ r c) e = (r, c)
  resting-IsCurrent _ _ s (posting _ r c) e = cc
  resting-IsCurrent _ _ s (posted _ r) e = cc
  resting-IsCurrent _ _ s (failed _ r c) e = cc

  -- While no new key is asked for, the button is free, and the page shows nothing or the key of the server with its
  -- fingerprint, if the button was never pressed before the load had come to its end and no answer with a new key
  -- was lost or unreadable.
  pub run-IsCurrent :
      (key : Text) (es : List Event)
      → AreOrderly (opened key) es
      → (run fingerprint (opened key) es).post ≡ resting
      → ((run fingerprint (opened key) es).regen ≡ false)
        × IsCurrent (run fingerprint (opened key) es)
  run-IsCurrent key es h e =
      resting-IsCurrent _ _ _ (run-IsSound es (opened key) h (loading _ refl (inl (refl, refl)))) e
