-- ===== src/Exceptions.antt =====
-- internal/web/frontend/src/components/ExceptionsView.jsx: the form of the accepted risks and their
-- list, with `fetchExceptions`, `handleAddException` and `handleDeleteException` of App.jsx. The
-- style of an item is not modelled. `toUpperCase` is the parameter `to_upper`.
pub mod Requests
mod Tests
use safe_dock.Common.{
  ℕ, List, [], ◌∷◌, Bool, true, false, ◌||◌, Option, none, some, Text, codes, is_empty,
  if◌then◌else◌,
}
use safe_dock.Http.{or_text}
use safe_dock.Trim.{trim}

pub record Exception : Type 0 where
  pub id : ℕ
  pub cve : Text
  pub container_name : Text
  pub reason : Text
  pub expires_at : Text
  pub active : Bool

-- What `submit` waits for: the answer to its request, then the list that `onAdd` fetches again.
pub data Wait : Type 0 where
  add list : Wait

pub record Exceptions : Type 0 where
  pub cve_id : Text
  pub scope : Text
  pub reason : Text
  pub expires_at : Text
  pub submitting : Bool
  pub error : Text
  pub exceptions : List Exception
  pub waiting : Option Wait

abbrev pub initial : List Exception → Exceptions
initial l = record {
  cve_id = [];
  scope = [];
  reason = [];
  expires_at = [];
  submitting = false;
  error = [];
  exceptions = l;
  waiting = none;
}

pub data Effect : Type 0 where
  quiet get_exceptions : Effect
  post_exception : (cve scope reason expires_at : Text) → Effect
  post_delete : ℕ → Effect

pub data Event : Type 0 where
  cve_typed scope_chosen reason_typed expiry_chosen : Text → Event
  submitted : Event
  -- The request of `handleAddException` succeeds, or is rejected with a message.
  added : Event
  refused : Text → Event
  -- The list that follows an addition comes, or does not.
  relisted : Option (List Exception) → Event
  delete_pressed : ℕ → Event
  -- A deletion is confirmed, or not; the list that follows it comes, or does not.
  deleted : Bool → Event
  listed : Option (List Exception) → Event

-- The end of `fetchExceptions`, which only logs a failure.
unfoldable pub set_exceptions : Option (List Exception) → Exceptions → Exceptions
set_exceptions none x = x
set_exceptions (some l) x = record x { exceptions = l }

-- `submit`, behind the `await` of a request that was not rejected
abbrev pub clear : Exceptions → Exceptions
clear x = record x {
  cve_id = [];
  reason = [];
  expires_at = [];
  scope = [];
  submitting = false;
  waiting = none;
}

unfoldable pub on_added : Option Wait → Exceptions → Exceptions × Effect
on_added (some add) x = (record x { waiting = some list }, get_exceptions)
on_added _ x = (x, quiet)

unfoldable pub on_refused : Option Wait → Text → Exceptions → Exceptions
on_refused (some add) message x = record x {
  error = or_text message (codes "Échec de l'enregistrement");
  submitting = false;
  waiting = none;
}
on_refused _ message x = x

unfoldable pub on_relisted : Option Wait → Option (List Exception) → Exceptions → Exceptions
on_relisted (some list) l x = clear (set_exceptions l x)
on_relisted _ l x = x

-- Whether the button is disabled, which keeps the form from being submitted.
unfoldable pub is_disabled : Exceptions → Bool
is_disabled x = x.submitting || is_empty (trim x.cve_id)

module _ (to_upper : Text → Text) where
  -- `submit`, up to its `await`
  unfoldable pub submit : Exceptions → Exceptions × Effect
  submit x =
      let cve = to_upper (trim x.cve_id) in
      if is_empty cve then (x, quiet) else (
        record x { submitting = true; error = []; waiting = some add },
        post_exception cve x.scope (trim x.reason) x.expires_at,
      )

  unfoldable pub step : Exceptions → Event → Exceptions × Effect
  step x (cve_typed v) = (record x { cve_id = v }, quiet)
  step x (scope_chosen v) = (record x { scope = v }, quiet)
  step x (reason_typed v) = (record x { reason = v }, quiet)
  step x (expiry_chosen v) = (record x { expires_at = v }, quiet)
  step x submitted = if is_disabled x then (x, quiet) else submit x
  step x added = on_added x.waiting x
  step x (refused message) = (on_refused x.waiting message x, quiet)
  step x (relisted l) = (on_relisted x.waiting l x, quiet)
  step x (delete_pressed n) = (x, post_delete n)
  step x (deleted ok) = (x, if ok then get_exceptions else quiet)
  step x (listed l) = (set_exceptions l x, quiet)

  unfoldable pub run : Exceptions → List Event → Exceptions
  run x [] = x
  run x (e ∷ es) = run (step x e).0 es
