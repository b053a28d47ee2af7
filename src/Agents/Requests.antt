-- ===== src/Agents/Requests.antt =====
-- What the page of the hosts sends, and when; and what the assistant does to a name.
use safe_dock.Common.{
  ◌≡◌, ◌≢◌, refl, ◌∙◌, ap, arith, ℕ, List, [], ◌∷◌, Bool, true, false, Option, none, some, Text,
  codes, is_empty,
}
use safe_dock.Common.Int.{ℤ, pos, negsuc}
use safe_dock.Http.{or_text}
use safe_dock.Trim.{trim, parse_int}
use safe_dock.Agents.{
  Script, Outcome, Wait, test, add, list, Asked, Agents, initial, Effect, post_script, post_host,
  test_form, Event, name_typed, generate_pressed, test_pressed, submitted, generated,
  generation_failed, form_tested, added, add_failed, listed, payload, or_port, script_request,
  generate, on_generated, on_generation_failed, test_pressed_on, submit, on_form_tested, on_added,
  on_add_failed, on_listed, step, run,
}

unfoldable pub is_some {ℓ} : {A : Type ℓ} → Option A → Bool
is_some none = false
is_some (some x) = true

-- The two spinners turn just while their handlers stand at an `await`.
abbrev pub IsBusy : Agents → Type 0
IsBusy a = (a.busy ≡ is_some a.waiting) × (a.gen_busy ≡ is_some a.asked)

generate-IsBusy : (a : Agents) → IsBusy a → IsBusy (generate a).0
unfolding generate is_some
generate-IsBusy a h = ground arith

on_generated-IsBusy :
    (k : Option Asked) (s : Script) (a : Agents) → IsBusy a → IsBusy (on_generated k s a)
unfolding on_generated is_some
on_generated-IsBusy none s a h = h
on_generated-IsBusy (some k) s a h = (h.0, refl)

on_generation_failed-IsBusy :
    (k : Option Asked) (m : Text) (a : Agents) → IsBusy a → IsBusy (on_generation_failed k m a)
unfolding on_generation_failed is_some
on_generation_failed-IsBusy none m a h = h
on_generation_failed-IsBusy (some k) m a h = (h.0, refl)

test_pressed_on-IsBusy : (a : Agents) → IsBusy a → IsBusy (test_pressed_on a).0
unfolding test_pressed_on is_some
test_pressed_on-IsBusy a h = ground arith

submit-IsBusy : (a : Agents) → IsBusy a → IsBusy (submit a).0
unfolding submit is_some
submit-IsBusy a h = ground arith

on_form_tested-IsBusy :
    (w : Option Wait) (o : Outcome) (a : Agents) → IsBusy a → IsBusy (on_form_tested w o a)
unfolding on_form_tested is_some
on_form_tested-IsBusy none o a h = h
on_form_tested-IsBusy (some test) o a h = (refl, h.1)
on_form_tested-IsBusy (some add) o a h = h
on_form_tested-IsBusy (some list) o a h = h

on_added-IsBusy :
    (w : Option Wait) (a : Agents) → a.waiting ≡ w → IsBusy a → IsBusy (on_added w a).0
unfolding on_added is_some
on_added-IsBusy none a p h = h
on_added-IsBusy (some test) a p h = h
on_added-IsBusy (some add) a p h = (h.0 ∙ ap is_some p, h.1)
on_added-IsBusy (some list) a p h = h

on_add_failed-IsBusy :
    (w : Option Wait) (m : Text) (a : Agents) → IsBusy a → IsBusy (on_add_failed w m a)
unfolding on_add_failed is_some
on_add_failed-IsBusy none m a h = h
on_add_failed-IsBusy (some test) m a h = h
on_add_failed-IsBusy (some add) m a h = (refl, h.1)
on_add_failed-IsBusy (some list) m a h = h

on_listed-IsBusy : (w : Option Wait) (a : Agents) → IsBusy a → IsBusy (on_listed w a)
unfolding on_listed is_some
on_listed-IsBusy none a h = h
on_listed-IsBusy (some test) a h = h
on_listed-IsBusy (some add) a h = h
on_listed-IsBusy (some list) a h = (refl, h.1)

step-IsBusy : (a : Agents) (e : Event) → IsBusy a → IsBusy (step a e).0
unfolding step
step-IsBusy a generate_pressed h = generate-IsBusy a h
step-IsBusy a (generated s) h = on_generated-IsBusy a.asked s a h
step-IsBusy a (generation_failed m) h = on_generation_failed-IsBusy a.asked m a h
step-IsBusy a test_pressed h = test_pressed_on-IsBusy a h
step-IsBusy a (form_tested o) h = on_form_tested-IsBusy a.waiting o a h
step-IsBusy a submitted h = submit-IsBusy a h
step-IsBusy a added h = on_added-IsBusy a.waiting a refl h
step-IsBusy a (add_failed m) h = on_add_failed-IsBusy a.waiting m a h
step-IsBusy a listed h = on_listed-IsBusy a.waiting a h
step-IsBusy a e h = h

run-IsBusy : (es : List Event) (a : Agents) → IsBusy a → IsBusy (run a es)
unfolding run
run-IsBusy [] a h = h
run-IsBusy (e ∷ es) a h = run-IsBusy es (step a e).0 (step-IsBusy a e h)

-- What a request of the page must look like, in the state in which it is sent.
abbrev pub IsSent : Agents → Effect → Type 0
IsSent a (post_host h) = (a.waiting ≡ none) × (h.name ≢ []) × (h.endpoint ≢ []) × (h ≡ payload a)
IsSent a (test_form h) = (a.waiting ≡ none) × (h.endpoint ≢ []) × (h ≡ payload a)
IsSent a (post_script r) =
    (a.asked ≡ none) × (r.address ≢ []) × (r.user ≢ []) × (r.port ≢ pos 0) × (r ≡ script_request a)
IsSent a _ = Unit

free-none {ℓ} : {A : Type ℓ} (w : Option A) → is_some w ≡ false → w ≡ none
unfolding is_some
free-none none h = refl
free-none (some w) h = cc

filled-≢ : (s : Text) → is_empty s ≡ false → s ≢ []
filled-≢ s h p = cc

or_port-≢ : (p : Option ℤ) → or_port p ≢ pos 0
or_port-≢ none e = cc
or_port-≢ (some (pos n)) e = ground arith
or_port-≢ (some (negsuc n)) e = cc

or_text-≢ : (s : Text) (c : ℕ) (t : Text) → or_text s (c ∷ t) ≢ []
or_text-≢ [] c t e = cc
or_text-≢ (b ∷ s) c t e = cc

generate-IsSent : (a : Agents) → IsBusy a → IsSent a (generate a).1
unfolding generate script_request
generate-IsSent a h = ground (
  arith,
  free-none a.asked,
  filled-≢ (trim a.ssh_addr),
  or_text-≢ (trim a.ssh_user) b's' (codes "afedock"),
  or_port-≢ (parse_int a.ssh_port),
)

test_pressed_on-IsSent : (a : Agents) → IsBusy a → IsSent a (test_pressed_on a).1
unfolding test_pressed_on payload
test_pressed_on-IsSent a h = ground (arith, free-none a.waiting, filled-≢ (trim a.endpoint))

submit-IsSent : (a : Agents) → IsBusy a → IsSent a (submit a).1
unfolding submit payload
submit-IsSent a h =
    ground (arith, free-none a.waiting, filled-≢ (trim a.name), filled-≢ (trim a.endpoint))

on_added-IsSent : (w : Option Wait) (a : Agents) → IsSent a (on_added w a).1
unfolding on_added
on_added-IsSent none a = tt
on_added-IsSent (some test) a = tt
on_added-IsSent (some add) a = tt
on_added-IsSent (some list) a = tt

step-IsSent : (a : Agents) (e : Event) → IsBusy a → IsSent a (step a e).1
unfolding step
step-IsSent a generate_pressed h = generate-IsSent a h
step-IsSent a test_pressed h = test_pressed_on-IsSent a h
step-IsSent a submitted h = submit-IsSent a h
step-IsSent a added h = on_added-IsSent a.waiting a
step-IsSent a e h = tt

-- The form and the assistant send nothing twice or blank: in every session, the form adds or tests a
-- host only while neither its test nor its addition is awaited, with the trimmed name and endpoint of
-- the form, which are not empty (for a test: the endpoint), and a script is asked for only while none
-- is awaited, with an address and a user that are not empty and a port that is not 0. The other
-- buttons are left out: the test of a row is sent as often as it is pressed.
pub session-IsSent : (es : List Event) (e : Event) → let a = run initial es in IsSent a (step a e).1
unfolding is_some
session-IsSent es e = step-IsSent (run initial es) e (run-IsBusy es initial (refl, refl))

-- The assistant overwrites a name that is typed while it works: whatever the state, if the name is
-- blank and the address is not when the script is asked for, then the name typed before the answer
-- comes is replaced by the address.
run-generated :
    (a : Agents) (v : Text) (s : Script)
    → a.gen_busy ≡ false
    → is_empty (trim a.name) ≡ true
    → is_empty (trim a.ssh_addr) ≡ false
    → (run a (generate_pressed ∷ name_typed v ∷ generated s ∷ [])).name ≡ trim a.ssh_addr
unfolding run step generate on_generated
run-generated a v s free blank filled = ground arith
