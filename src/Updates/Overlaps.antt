-- ===== src/Updates/Overlaps.antt =====
-- What the message of the roll-outs says, and when it goes, against an observer of starts and ends.
use mathlib.Core.Path.{subst}
use safe_dock.Common.{
  ℕ, zero, suc, ◌≡◌, ◌≢◌, refl, sym, List, [], ◌∷◌, ◌++◌, Bool, true, false, codes,
}
use safe_dock.Updates.{
  Rollouts, idle, Message, silent, success, failure, Reply, finished, refused, failed, Event,
  triggered, replied, message_timer, waiting_message, message_of, settle, clear, step, run,
}

-- The last that has happened: a start, an end, or the timer behind an end.
pub data Last : Type 0 where
  nothing started : Last
  ended : Reply → Last

-- What is seen from outside: the roll-outs on their way, the timers that are due, and whether the last
-- of the starts and ends is a start.
pub record Seen : Type 0 where
  pub last : Last
  pub is_start : Bool
  pub running : ℕ
  pub due : ℕ

abbrev pub nothing_seen : Seen
nothing_seen = record { last = nothing; is_start = false; running = 0; due = 0 }

abbrev end_one : Reply → ℕ → Seen → Seen
end_one a zero s = s
end_one a (suc n) s = record { last = ended a; is_start = false; running = n; due = suc s.due }

abbrev fire_one : ℕ → Seen → Seen
fire_one zero s = s
fire_one (suc n) s = record s { last = nothing; due = n }

abbrev pub see : Event → Seen → Seen
see (triggered c h) s = record s { last = started; is_start = true; running = suc s.running }
see (replied a) s = end_one a s.running s
see message_timer s = fire_one s.due s

unfoldable pub see_all : Seen → List Event → Seen
see_all s [] = s
see_all s (e ∷ es) = see_all (see e s) es

-- The message tells what has happened: an end that is no success is a failure, in the words of the
-- server where it has given any, and only a success is told as one.
abbrev pub Tells : Last → Message → Type 0
Tells nothing m = m ≡ silent
Tells started m = m ≡ success waiting_message
Tells (ended (finished t)) (success m) = (m ≢ []) × (t ≢ [] → m ≡ t)
Tells (ended (refused status e)) (failure m) =
    e ≢ [] → m ≡ codes "Mise à jour bloquée / échouée : " ++ e
Tells (ended (failed e)) (failure m) = m ≡ codes "Mise à jour bloquée / échouée : " ++ e
Tells _ _ = ⊥

pub record IsTold (r : Rollouts) (s : Seen) : Type 0 where
  pub tells : Tells s.last r.message
  pub waits : r.loading ≡ s.is_start
  pub same_running : r.running ≡ s.running
  pub same_timers : r.timers ≡ s.due

message_of-Tells : (a : Reply) → Tells (ended a) (message_of a)
unfolding message_of
message_of-Tells (finished []) = ((λ e. cc), λ h. absurd (h refl))
message_of-Tells (finished (c ∷ m)) = ((λ e. cc), λ h. refl)
message_of-Tells (refused status []) = λ h. absurd (h refl)
message_of-Tells (refused status (c ∷ e)) = λ h. refl
message_of-Tells (failed e) = refl

settle-IsTold :
    (n : ℕ) (a : Reply) (r : Rollouts) (s : Seen)
    → IsTold r s
    → s.running ≡ n
    → IsTold (settle n a r).0 (end_one a n s)
unfolding settle
settle-IsTold zero a r s h e = h
settle-IsTold (suc n) a r s h e = record {
  tells = message_of-Tells a;
  waits = refl;
  same_running = refl;
  same_timers = rw h.same_timers;
}

clear-IsTold :
    (n : ℕ) (r : Rollouts) (s : Seen) → IsTold r s → s.due ≡ n → IsTold (clear n r) (fire_one n s)
unfolding clear
clear-IsTold zero r s h e = h
clear-IsTold (suc n) r s h e = record {
  tells = refl;
  waits = h.waits;
  same_running = h.same_running;
  same_timers = refl;
}

step-IsTold : (e : Event) (r : Rollouts) (s : Seen) → IsTold r s → IsTold (step r e).0 (see e s)
unfolding step
step-IsTold (triggered c k) r s h = record {
  tells = refl;
  waits = refl;
  same_running = rw h.same_running;
  same_timers = h.same_timers;
}
step-IsTold (replied a) r s h =
    subst (λ n. IsTold (settle r.running a r).0 (end_one a n s)) h.same_running
      (settle-IsTold r.running a r s h (sym h.same_running))
step-IsTold message_timer r s h =
    subst (λ n. IsTold (clear r.timers r) (fire_one n s)) h.same_timers
      (clear-IsTold r.timers r s h (sym h.same_timers))

run-IsTold :
    (es : List Event) (r : Rollouts) (s : Seen) → IsTold r s → IsTold (run r es) (see_all s es)
unfolding run see_all
run-IsTold [] r s h = h
run-IsTold (e ∷ es) r s h = run-IsTold es (step r e).0 (see e s) (step-IsTold e r s h)

-- In every session of the page of the roll-outs, overlapping ones included, the message is that of the
-- last start, end or timer: behind a start that of waiting, behind an end a success just for a roll-out
-- that is finished, with the text of the server if there is one, and a failure for the others, with the
-- error of the server if there is one, and none behind a timer. The page waits just if the last of the
-- starts and ends is a start, so that the end of one roll-out ends the waiting for all.
pub run-shown : (es : List Event) → IsTold (run idle es) (see_all nothing_seen es)
run-shown es =
    run-IsTold es idle nothing_seen
      (record { tells = refl; waits = refl; same_running = refl; same_timers = refl })
