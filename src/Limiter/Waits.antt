-- ===== src/Limiter/Waits.antt =====
-- How long a lock of internal/auth/limiter.go lasts, and what the message of a refusal says.
use safe_dock.Common.{
  ◌≡◌, arith, ℕ, zero, suc, ◌+◌, ◌<◌, ◌≤◌, List, [], ◌∷◌, Option, none, some, Text, text_eq,
  Bool-cases, inl, inr, All, ltb→lt, ltb, length, leb,
}
use safe_dock.Limiter.{
  Attempts, Limiter, Request, Reply, Step, password, code, too_many, wrong, passed, lookup, put,
  reset, is_expired, purge, purge_if_large, failed, counted, in_window, begun, lock_duration,
  shifted, fail, locked, locked_any, left_of, first_of, user_key, ip_key, fail_both, accept,
  serve_checked, serve, run,
}
use safe_dock.Limiter.Guesses.{IsOrdered, last_time}

-- The lock of an entry ends within four hours of `last`.
abbrev IsShort : ℕ → Text × Attempts → Type 0
IsShort last e = e.1.locked_until ≤ last + 14400000000000

abbrev AreShort : ℕ → Limiter → Type 0
AreShort last m = All (IsShort last) m

shifted-le : (n : ℕ) → n ≤ 4 → shifted n ≤ 14400000000000
unfolding shifted
shifted-le zero h = omega arith
shifted-le (suc zero) h = omega arith
shifted-le (suc (suc zero)) h = omega arith
shifted-le (suc (suc (suc zero))) h = omega arith
shifted-le (suc (suc (suc (suc zero)))) h = omega arith
shifted-le (suc (suc (suc (suc (suc n))))) h = omega arith

lock_duration-le : (n : ℕ) → lock_duration n ≤ 14400000000000
unfolding lock_duration
lock_duration-le n = shifted-le _ (ground arith)

AreShort-later : (last now : ℕ) (m : Limiter) → last ≤ now → AreShort last m → AreShort now m
AreShort-later last now [] l h = tt
AreShort-later last now (e ∷ m) l h = (omega arith, AreShort-later last now m l h.1)

AreShort-reset : (now : ℕ) (k : Text) (m : Limiter) → AreShort now m → AreShort now (reset k m)
unfolding reset
AreShort-reset now k [] h = tt
AreShort-reset now k ((k', s) ∷ m) h = elim (Bool-cases (text_eq k k')) [
  | inl same ↦ rw same (AreShort-reset now k m h.1)
  | inr differ ↦ rw differ (h.0, AreShort-reset now k m h.1)
]

AreShort-purge : (now : ℕ) (m : Limiter) → AreShort now m → AreShort now (purge now m)
unfolding purge
AreShort-purge now [] h = tt
AreShort-purge now ((k, s) ∷ m) h = elim (Bool-cases (is_expired now s)) [
  | inl over ↦ rw over (AreShort-reset now k (purge now m) (AreShort-purge now m h.1))
  | inr kept ↦ rw kept (h.0, AreShort-purge now m h.1)
]

AreShort-purge_if_large :
    (now : ℕ) (m : Limiter) → AreShort now m → AreShort now (purge_if_large now m)
unfolding purge_if_large
AreShort-purge_if_large now m h = elim (Bool-cases (ltb 4096 (length m))) [
  | inl large ↦ rw large (AreShort-purge now m h)
  | inr small ↦ rw small h
]

AreShort-put :
    (now : ℕ) (k : Text) (s : Attempts) (m : Limiter)
    → s.locked_until ≤ now + 14400000000000
    → AreShort now m
    → AreShort now (put k s m)
unfolding put
AreShort-put now k s [] l h = (l, tt)
AreShort-put now k s ((k', s') ∷ m) l h = elim (Bool-cases (text_eq k k')) [
  | inl same ↦ rw same (l, h.1)
  | inr differ ↦ rw differ (h.0, AreShort-put now k s m l h.1)
]

-- What an entry says, if there is one.
IsShortly : ℕ → Option Attempts → Type 0
IsShortly last none = Unit
IsShortly last (some s) = s.locked_until ≤ last + 14400000000000

lookup-IsShortly :
    (last : ℕ) (k : Text) (m : Limiter) → AreShort last m → IsShortly last (lookup k m)
unfolding lookup IsShortly
lookup-IsShortly last k [] h = tt
lookup-IsShortly last k ((k', s) ∷ m) h = elim (Bool-cases (text_eq k k')) [
  | inl same ↦ rw same h.0
  | inr differ ↦ rw differ (lookup-IsShortly last k m h.1)
]

counted-IsShortly :
    (max now : ℕ) (s : Attempts)
    → s.locked_until ≤ now + 14400000000000
    → (counted max now s).0.locked_until ≤ now + 14400000000000
unfolding counted
counted-IsShortly max now s h = elim (Bool-cases (leb max (suc s.count))) [
  | inl full ↦ rw full (omega (arith, lock_duration-le s.lock_count))
  | inr more ↦ rw more h
]

in_window-locked_until : (now : ℕ) (s : Attempts) → (in_window now s).locked_until ≡ s.locked_until
in_window-locked_until now s = ground arith

failed-IsShortly :
    (max now : ℕ) (o : Option Attempts)
    → IsShortly now o
    → (failed max now o).0.locked_until ≤ now + 14400000000000
unfolding failed IsShortly
failed-IsShortly max now none h =
    counted-IsShortly max now (in_window now (begun now none))
      (rw (in_window-locked_until now (begun now none)) (omega arith))
failed-IsShortly max now (some s) h =
    counted-IsShortly max now (in_window now s) (rw (in_window-locked_until now s) h)

AreShort-fail :
    (k : Text) (max now : ℕ) (m : Limiter) → AreShort now m → AreShort now (fail k max now m).0
unfolding fail
AreShort-fail k max now m h =
    let large : AreShort now (purge_if_large now m) = AreShort-purge_if_large now m h in
    AreShort-put now k _ (purge_if_large now m)
      (failed-IsShortly max now (lookup k (purge_if_large now m)) (lookup-IsShortly now k _ large))
      large

AreShort-accept :
    (s : Step) (r : Request) (m : Limiter) → AreShort r.time m → AreShort r.time (accept s r m)
unfolding accept
AreShort-accept password r m h = h
AreShort-accept code r m h =
    AreShort-reset r.time (ip_key r) (reset (user_key r) m) (AreShort-reset r.time (user_key r) m h)

AreShort-checked :
    (r : Request) (m : Limiter) (d : Option ℕ)
    → AreShort r.time m
    → AreShort r.time (serve_checked d r m).0
unfolding serve_checked fail_both
AreShort-checked r m (some left) h = h
AreShort-checked r m none h = elim (Bool-cases r.is_right) [
  | inl right ↦ simp right (AreShort-accept r.step r m h)
  | inr not_right ↦ simp not_right (
      AreShort-fail (ip_key r) 20 r.time (fail (user_key r) 5 r.time m).0
        (AreShort-fail (user_key r) 5 r.time m h))
]

run-AreShort :
    (rs : List Request) (last : ℕ) (m : Limiter)
    → IsOrdered last rs
    → AreShort last m
    → AreShort (last_time last rs) (run m rs)
unfolding run serve
run-AreShort [] last m o h = h
run-AreShort (r ∷ rs) last m o h =
    run-AreShort rs r.time (serve r m).0 o.1
      (AreShort-checked r m _ (AreShort-later last r.time m (omega arith) h))

-- The time that is left to a lock, as a request at `now` meets it.
IsWithin : (last now : ℕ) → Option ℕ → Type 0
IsWithin last now none = Unit
IsWithin last now (some left) = now + left ≤ last + 14400000000000 × 1 ≤ left

left-IsWithin :
    (last now : ℕ) (o : Option Attempts) → IsShortly last o → IsWithin last now (left_of now o)
unfolding IsShortly IsWithin
left-IsWithin last now none h = tt
left-IsWithin last now (some s) h = elim (Bool-cases (ltb now s.locked_until)) [
  | inl running ↦
      let late : now < s.locked_until = ltb→lt _ _ running in rw running (omega arith, omega arith)
  | inr over ↦ rw over tt
]

first-IsWithin :
    (last now : ℕ) (d e : Option ℕ)
    → IsWithin last now d
    → IsWithin last now e
    → IsWithin last now (first_of d e)
first-IsWithin last now none e h k = k
first-IsWithin last now (some d) e h k = h

locked_any-IsWithin :
    (last now : ℕ) (ks : List Text) (m : Limiter)
    → AreShort last m
    → IsWithin last now (locked_any now ks m)
unfolding locked_any locked IsWithin
locked_any-IsWithin last now [] m h = tt
locked_any-IsWithin last now (k ∷ ks) m h =
    first-IsWithin last now (left_of now (lookup k m)) (locked_any now ks m)
      (left-IsWithin last now (lookup k m) (lookup-IsShortly last k m h))
      (locked_any-IsWithin last now ks m h)

-- What a reply may be, `last` being the time of the request before.
unfoldable pub IsFair : (last now : ℕ) → Reply → Type 0
IsFair last now (too_many minutes) = (1 ≤ minutes) × (minutes ≤ 240) × (now < last + 14400000000000)
IsFair last now (wrong b) = Unit
IsFair last now passed = Unit

checked-IsFair :
    (last : ℕ) (r : Request) (m : Limiter) (d : Option ℕ)
    → last < r.time
    → IsWithin last r.time d
    → IsFair last r.time (serve_checked d r m).1
unfolding serve_checked IsFair IsWithin fail_both
checked-IsFair last r m (some left) l h = (omega arith, omega arith, omega arith)
checked-IsFair last r m none l h = elim (Bool-cases r.is_right) [
  | inl right ↦ simp right tt
  | inr not_right ↦ simp not_right tt
]

-- When the requests are handled one after the other, a request that is refused is told from 1 to 240
-- minutes, and four hours without a request are enough for none to be refused.
pub served-IsFair :
    (start : ℕ) (rs : List Request) (r : Request)
    → IsOrdered start rs
    → last_time start rs < r.time
    → IsFair (last_time start rs) r.time (serve r (run [] rs)).1
unfolding serve
served-IsFair start rs r o l = checked-IsFair (last_time start rs) r (run [] rs) _ l (
    locked_any-IsWithin (last_time start rs) r.time (user_key r ∷ ip_key r ∷ []) (run [] rs)
      (run-AreShort rs start [] o tt))
