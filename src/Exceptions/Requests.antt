-- ===== src/Exceptions/Requests.antt =====
-- When the form of the accepted risks sends, and what.
use safe_dock.Common.{
  ◌≡◌, ◌≢◌, refl, sym, arith, List, [], ◌∷◌, Bool, true, false, Option, none, some, Text, is_empty,
}
use mathlib.Core.Path.{subst}
use safe_dock.Trim.{trim}
use safe_dock.Exceptions.{
  Exception, Wait, add, list, Exceptions, initial, Effect, post_exception, Event, cve_typed,
  scope_chosen, reason_typed, expiry_chosen, submitted, added, refused, relisted, delete_pressed,
  deleted, listed, set_exceptions, on_added, on_refused, on_relisted, is_disabled, submit, step,
  run,
}

-- Whether `submit` stands at one of its `await`s.
unfoldable pub is_some : Option Wait → Bool
is_some none = false
is_some (some w) = true

abbrev pub IsBusy : Exceptions → Type 0
IsBusy x = x.submitting ≡ is_some x.waiting

set_exceptions-IsBusy :
    (l : Option (List Exception)) (x : Exceptions) → IsBusy x → IsBusy (set_exceptions l x)
unfolding set_exceptions is_some
set_exceptions-IsBusy none x h = h
set_exceptions-IsBusy (some l) x h = h

on_added-IsBusy :
    (w : Option Wait) (x : Exceptions) → w ≡ x.waiting → IsBusy x → IsBusy (on_added w x).0
unfolding on_added is_some
on_added-IsBusy none x p h = h
on_added-IsBusy (some add) x p h = subst (λ v. x.submitting ≡ is_some v) (sym p) h
on_added-IsBusy (some list) x p h = h

on_refused-IsBusy :
    (w : Option Wait) (m : Text) (x : Exceptions) → IsBusy x → IsBusy (on_refused w m x)
unfolding on_refused is_some
on_refused-IsBusy none m x h = h
on_refused-IsBusy (some add) m x h = refl
on_refused-IsBusy (some list) m x h = h

on_relisted-IsBusy :
    (w : Option Wait) (l : Option (List Exception)) (x : Exceptions)
    → IsBusy x
    → IsBusy (on_relisted w l x)
unfolding on_relisted is_some
on_relisted-IsBusy none l x h = h
on_relisted-IsBusy (some add) l x h = h
on_relisted-IsBusy (some list) l x h = refl

module _ (to_upper : Text → Text) where
  submit-IsBusy : (x : Exceptions) → IsBusy x → IsBusy (submit to_upper x).0
  unfolding submit is_some
  submit-IsBusy x h = ground arith

  step-IsBusy : (x : Exceptions) (e : Event) → IsBusy x → IsBusy (step to_upper x e).0
  unfolding step
  step-IsBusy x (cve_typed v) h = h
  step-IsBusy x (scope_chosen v) h = h
  step-IsBusy x (reason_typed v) h = h
  step-IsBusy x (expiry_chosen v) h = h
  step-IsBusy x submitted h = ground (arith, submit-IsBusy x h)
  step-IsBusy x added h = on_added-IsBusy x.waiting x refl h
  step-IsBusy x (refused m) h = on_refused-IsBusy x.waiting m x h
  step-IsBusy x (relisted l) h = on_relisted-IsBusy x.waiting l x h
  step-IsBusy x (delete_pressed n) h = h
  step-IsBusy x (deleted ok) h = h
  step-IsBusy x (listed l) h = set_exceptions-IsBusy l x h

  run-IsBusy : (es : List Event) (x : Exceptions) → IsBusy x → IsBusy (run to_upper x es)
  unfolding run
  run-IsBusy [] x h = h
  run-IsBusy (e ∷ es) x h = run-IsBusy es (step to_upper x e).0 (step-IsBusy x e h)

  -- What a request to add an exception must look like, in the state in which it is sent.
  unfoldable pub IsSent : Exceptions → Effect → Type 0
  IsSent x (post_exception cve scope reason expires_at) =
      (x.waiting ≡ none)
      × (cve ≢ [])
      × (cve ≡ to_upper (trim x.cve_id))
      × (scope ≡ x.scope)
      × (reason ≡ trim x.reason)
      × (expires_at ≡ x.expires_at)
  IsSent x _ = Unit

  free-none : (w : Option Wait) → is_some w ≡ false → w ≡ none
  unfolding is_some
  free-none none h = refl
  free-none (some w) h = cc

  filled-≢ : (s : Text) → is_empty s ≡ false → s ≢ []
  filled-≢ s h p = cc

  submit-IsSent : (x : Exceptions) → x.waiting ≡ none → IsSent x (submit to_upper x).1
  unfolding submit IsSent
  submit-IsSent x free = ground (arith, filled-≢ (to_upper (trim x.cve_id)))

  submitted-IsSent : (x : Exceptions) → IsBusy x → IsSent x (step to_upper x submitted).1
  unfolding step is_disabled IsSent
  submitted-IsSent x h = ground (arith, free-none x.waiting, submit-IsSent x)

  on_added-IsSent : (w : Option Wait) (x : Exceptions) → IsSent x (on_added w x).1
  unfolding on_added IsSent
  on_added-IsSent none x = tt
  on_added-IsSent (some add) x = tt
  on_added-IsSent (some list) x = tt

  step-IsSent : (x : Exceptions) (e : Event) → IsBusy x → IsSent x (step to_upper x e).1
  unfolding step IsSent
  step-IsSent x (cve_typed v) h = tt
  step-IsSent x (scope_chosen v) h = tt
  step-IsSent x (reason_typed v) h = tt
  step-IsSent x (expiry_chosen v) h = tt
  step-IsSent x submitted h = submitted-IsSent x h
  step-IsSent x added h = on_added-IsSent x.waiting x
  step-IsSent x (refused m) h = tt
  step-IsSent x (relisted l) h = tt
  step-IsSent x (delete_pressed n) h = tt
  step-IsSent x (deleted true) h = tt
  step-IsSent x (deleted false) h = tt
  step-IsSent x (listed l) h = tt

  -- Every addition is sent whole, and once: in every session that starts with the form empty, what
  -- asks for an exception is sent while neither an earlier addition nor the list behind it is
  -- awaited, names no empty CVE, and carries what stands in the form: the name trimmed and in upper
  -- case, the scope, the justification trimmed and the date.
  pub run-IsSent :
      (l : List Exception) (es : List Event) (e : Event)
      → let x = run to_upper (initial l) es in IsSent x (step to_upper x e).1
  unfolding is_some
  run-IsSent l es e = step-IsSent (run to_upper (initial l) es) e (run-IsBusy es (initial l) refl)
