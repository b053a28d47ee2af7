-- ===== src/Updates.antt =====
-- `handleTriggerRollout` of internal/web/frontend/src/App.jsx, and the lists of
-- components/ActionsView.jsx, whose buttons start roll-outs with no regard to those that run. Timers
-- are answered like requests: `message_timer` is one that clears the message.
pub mod Lists
pub mod Overlaps
mod Tests
use safe_dock.Common.{
  ℕ, zero, suc, ◌+◌, List, [], ◌∷◌, ◌++◌, Bool, true, false, not, ◌&&◌, Option, none, some, Text,
  codes, ltb, if◌then◌else◌, keep,
}
use safe_dock.Fleet.{Container}
use safe_dock.Http.{or_text, server_error}

-- `updatesPending`
unfoldable pub updates_pending : List Container → List Container
updates_pending cs = keep (λ c. c.update_available) cs

-- `vulnerable`
unfoldable pub vulnerable : List Container → List Container
vulnerable cs = keep (λ c. ltb c.score 75 && not c.update_available) cs

-- `rolloutStatusMsg`
pub data Message : Type 0 where
  silent : Message
  success failure : Text → Message

pub record Rollouts : Type 0 where
  pub loading : Bool
  pub message : Message
  -- The roll-outs on their way, and the timers that will clear the message.
  pub running : ℕ
  pub timers : ℕ

abbrev pub idle : Rollouts
idle = record { loading = false; message = silent; running = 0; timers = 0 }

-- How a roll-out ends: with a message, with a status and perhaps an error, or rejected.
pub data Reply : Type 0 where
  finished : Text → Reply
  refused : ℕ → Text → Reply
  failed : Text → Reply

pub data Effect : Type 0 where
  quiet fetch_all : Effect
  post_update : (container : Text) (host : Option Text) → Effect

pub data Event : Type 0 where
  -- `onTriggerRollout`, with the identity of a container and its host.
  triggered : Text → Option Text → Event
  replied : Reply → Event
  message_timer : Event

abbrev pub waiting_message : Text
waiting_message = codes "Recherche de mise à jour distante et analyse de sécurité..."

abbrev blocked : Text → Text
blocked m = codes "Mise à jour bloquée / échouée : " ++ m

unfoldable pub message_of : Reply → Message
unfolding server_error
message_of (finished m) = success (or_text m (codes "Opération terminée."))
message_of (refused status e) = failure (blocked (or_text e (server_error status)))
message_of (failed m) = failure (blocked m)

abbrev effect_of : Reply → Effect
effect_of (finished m) = fetch_all
effect_of _ = quiet

-- `.then(…).catch(…).finally(…)`
unfoldable pub settle : ℕ → Reply → Rollouts → Rollouts × Effect
settle zero a r = (r, quiet)
settle (suc n) a r = (
  record { loading = false; message = message_of a; running = n; timers = suc r.timers },
  effect_of a,
)

unfoldable pub clear : ℕ → Rollouts → Rollouts
clear zero r = r
clear (suc n) r = record r { message = silent; timers = n }

unfoldable pub step : Rollouts → Event → Rollouts × Effect
step r (triggered c h) = (
  record r { loading = true; message = success waiting_message; running = suc r.running },
  post_update c h,
)
step r (replied a) = settle r.running a r
step r message_timer = (clear r.timers r, quiet)

unfoldable pub run : Rollouts → List Event → Rollouts
run r [] = r
run r (e ∷ es) = run (step r e).0 es
