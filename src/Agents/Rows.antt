-- ===== src/Agents/Rows.antt =====
-- The cells of the hosts, each by its own tests.
use safe_dock.Common.{
  ◌≡◌, refl, ◌∙◌, ap, arith, ℕ, List, [], ◌∷◌, true, false, Option, none, some, Text, ◌==◌,
  if◌then◌else◌, Bool-cases, inl, inr,
}
use safe_dock.Agents.{
  Test, loading, Outcome, tested, broken, Script, Wait, test, add, list, Asked, Agents, Event,
  generate_pressed, test_pressed, submitted, generated, generation_failed, form_tested, added,
  add_failed, listed, row_pressed, row_tested, generate, on_generated, on_generation_failed,
  test_pressed_on, submit, on_form_tested, on_added, on_add_failed, on_listed, test_of, step, run,
  Cell, spinner, ok, refused, result_of, cell_of, cell,
}

generate-results : (a : Agents) → (generate a).0.results ≡ a.results
unfolding generate
generate-results a = ground arith

on_generated-results :
    (k : Option Asked) (s : Script) (a : Agents) → (on_generated k s a).results ≡ a.results
unfolding on_generated
on_generated-results none s a = refl
on_generated-results (some k) s a = refl

on_generation_failed-results :
    (k : Option Asked) (m : Text) (a : Agents) → (on_generation_failed k m a).results ≡ a.results
unfolding on_generation_failed
on_generation_failed-results none m a = refl
on_generation_failed-results (some k) m a = refl

test_pressed_on-results : (a : Agents) → (test_pressed_on a).0.results ≡ a.results
unfolding test_pressed_on
test_pressed_on-results a = ground arith

submit-results : (a : Agents) → (submit a).0.results ≡ a.results
unfolding submit
submit-results a = ground arith

on_form_tested-results :
    (w : Option Wait) (o : Outcome) (a : Agents) → (on_form_tested w o a).results ≡ a.results
unfolding on_form_tested
on_form_tested-results none o a = refl
on_form_tested-results (some test) o a = refl
on_form_tested-results (some add) o a = refl
on_form_tested-results (some list) o a = refl

on_added-results : (w : Option Wait) (a : Agents) → (on_added w a).0.results ≡ a.results
unfolding on_added
on_added-results none a = refl
on_added-results (some test) a = refl
on_added-results (some add) a = refl
on_added-results (some list) a = refl

on_add_failed-results :
    (w : Option Wait) (m : Text) (a : Agents) → (on_add_failed w m a).results ≡ a.results
unfolding on_add_failed
on_add_failed-results none m a = refl
on_add_failed-results (some test) m a = refl
on_add_failed-results (some add) m a = refl
on_add_failed-results (some list) m a = refl

on_listed-results : (w : Option Wait) (a : Agents) → (on_listed w a).results ≡ a.results
unfolding on_listed
on_listed-results none a = refl
on_listed-results (some test) a = refl
on_listed-results (some add) a = refl
on_listed-results (some list) a = refl

-- The verdict on a test, as a cell.
abbrev pub verdict : Outcome → Cell
verdict (tested true m) = ok
verdict (tested false m) = refused m
verdict (broken m) = refused m

-- What one host's cell makes of an event, with nothing but its own tests in view.
unfoldable pub shows : ℕ → Event → Cell → Cell
shows h (row_pressed n) c = if n == h then spinner else c
shows h (row_tested n o) c = if n == h then verdict o else c
shows h _ c = c

unfoldable pub watch : ℕ → List Event → Cell → Cell
watch h [] c = c
watch h (e ∷ es) c = watch h es (shows h e c)

cell_of-test_of : (o : Outcome) → cell_of (some (test_of o)) ≡ verdict o
unfolding cell_of test_of
cell_of-test_of (tested true m) = refl
cell_of-test_of (tested false m) = refl
cell_of-test_of (broken m) = refl

cell-eq : (h : ℕ) (a b : Agents) → a.results ≡ b.results → cell h a ≡ cell h b
unfolding cell
cell-eq h a b p = ap (λ rs. cell_of (result_of h rs)) p

cell-cons :
    (h n : ℕ) (t : Test) (c : Cell) (a : Agents)
    → cell_of (some t) ≡ c
    → cell h (record a { results = (n, t) ∷ a.results }) ≡ (if n == h then c else cell h a)
unfolding cell
cell-cons h n t c a p = elim (Bool-cases (n == h)) [
  | inl same ↦ rw (same, p) refl
  | inr other ↦ rw other refl
]

step-cell : (h : ℕ) (a : Agents) (e : Event) → cell h (step a e).0 ≡ shows h e (cell h a)
unfolding step shows cell_of
step-cell h a generate_pressed = cell-eq h _ a (generate-results a)
step-cell h a (generated s) = cell-eq h _ a (on_generated-results a.asked s a)
step-cell h a (generation_failed m) = cell-eq h _ a (on_generation_failed-results a.asked m a)
step-cell h a test_pressed = cell-eq h _ a (test_pressed_on-results a)
step-cell h a (form_tested o) = cell-eq h _ a (on_form_tested-results a.waiting o a)
step-cell h a submitted = cell-eq h _ a (submit-results a)
step-cell h a added = cell-eq h _ a (on_added-results a.waiting a)
step-cell h a (add_failed m) = cell-eq h _ a (on_add_failed-results a.waiting m a)
step-cell h a listed = cell-eq h _ a (on_listed-results a.waiting a)
step-cell h a (row_pressed n) = cell-cons h n loading spinner a refl
step-cell h a (row_tested n o) = cell-cons h n (test_of o) (verdict o) a (cell_of-test_of o)
step-cell h a e = cell-eq h (step a e).0 a refl

-- The cell of each host is the work of its own tests: after any session of the page it shows what the
-- presses of its button and the answers to them, in their order, make of it, whatever the other hosts'
-- tests, the form and the assistant have done in between.
pub run-cell : (h : ℕ) (es : List Event) (a : Agents) → cell h (run a es) ≡ watch h es (cell h a)
unfolding run watch
run-cell h [] a = refl
run-cell h (e ∷ es) a = run-cell h es (step a e).0 ∙ ap (watch h es) (step-cell h a e)
