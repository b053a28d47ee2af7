-- ===== src/Identity.antt =====
-- The SSH key of SafeDock on the page of the hosts: `loadSSHIdentity` and `regenerateKey` of
-- internal/web/frontend/src/components/AgentsView.jsx, with `HandleSSHIdentity` of internal/api/users.go
-- behind its check of the role. A request is first sent, then handled by the server, and then answered,
-- or lost on its way. The fingerprint and the new keys are arbitrary.
pub mod Current
mod Tests
use safe_dock.Common.{List, [], ◌∷◌, Bool, true, false, Option, none, some, Text, if◌then◌else◌}

-- The answer of the server: a key, or a refusal.
pub data Answer : Type 0 where
  given : (key : Text) → Answer
  refused : Answer

pub data Trip : Type 0 where
  resting sent : Trip
  handled : Answer → Trip

pub record State : Type 0 where
  -- `sshPub` and `sshFp`
  pub ssh_pub : Text
  pub ssh_fp : Text
  pub regen : Bool
  pub load : Trip
  pub post : Trip
  -- The key that the server holds.
  pub key : Text

-- The page begins with the load of the key.
abbrev pub opened : (key : Text) → State
opened key = record {
  ssh_pub = [];
  ssh_fp = [];
  regen = false;
  load = sent;
  post = resting;
  key = key;
}

pub data Event : Type 0 where
  load_handled : (is_read : Bool) → Event
  load_answered load_lost : Event
  pressed : (is_confirmed : Bool) → Event
  -- The server makes a new key, or fails.
  post_handled : Option Text → Event
  -- With whether the body can be read; `{}` stands for one that cannot.
  post_answered : (is_json : Bool) → Event
  post_lost : Event

module _ (fingerprint : Text → Text) where
  abbrev shown_key : Text → State → State
  shown_key k s = record s { ssh_pub = k; ssh_fp = fingerprint k }

  -- `loadSSHIdentity`, behind its `fetch`: a failure changes nothing.
  unfoldable pub loaded : Trip → State → State
  loaded (handled (given k)) s = record (shown_key k s) { load = resting }
  loaded (handled refused) s = record s { load = resting }
  loaded t s = s

  -- `regenerateKey`, behind its `fetch`.
  unfoldable pub regenerated : Trip → (is_json : Bool) → State → State
  regenerated (handled (given k)) true s = record (shown_key k s) { regen = false; post = resting }
  regenerated (handled (given k)) false s = record s {
    ssh_pub = [];
    ssh_fp = [];
    regen = false;
    post = resting;
  }
  regenerated (handled refused) is_json s = record s { regen = false; post = resting }
  regenerated t is_json s = s

  -- Its `finally` alone, when the request is lost.
  unfoldable pub given_up : Trip → State → State
  given_up resting s = s
  given_up t s = record s { regen = false; post = resting }

  -- `HandleSSHIdentity`
  unfoldable pub handle_load : (is_read : Bool) → Trip → State → State
  handle_load is_read sent s = record s {
    load = handled (if is_read then given s.key else refused);
  }
  handle_load is_read t s = s

  unfoldable pub handle_post : Trip → Option Text → State → State
  handle_post sent (some k) s = record s { key = k; post = handled (given k) }
  handle_post sent none s = record s { post = handled refused }
  handle_post t o s = s

  -- The button is disabled while `regen` holds.
  unfoldable pub step : State → Event → State
  unfolding loaded regenerated given_up handle_load handle_post
  step s (load_handled b) = handle_load b s.load s
  step s load_answered = loaded s.load s
  step s load_lost = record s { load = resting }
  step s (pressed false) = s
  step s (pressed true) = if s.regen then s else record s { regen = true; post = sent }
  step s (post_handled o) = handle_post s.post o s
  step s (post_answered b) = regenerated s.post b s
  step s post_lost = given_up s.post s

  unfoldable pub run : State → List Event → State
  unfolding step
  run s [] = s
  run s (e ∷ es) = run (step s e) es
