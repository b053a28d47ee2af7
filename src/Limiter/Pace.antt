-- ===== src/Limiter/Pace.antt =====
-- The pace at which one entry of internal/auth/limiter.go lets wrong guesses through.
use safe_dock.Common.{
  ◌≡◌, refl, arith, ℕ, zero, suc, ◌+◌, ◌-◌, ◌*◌, ◌<◌, ◌≤◌, false, Option, none, some, Text, text_eq,
  ltb, leb, Bool-cases, inl, inr, ltb→lt, lt→ltb,
}
use safe_dock.Limiter.{
  Attempts, Limiter, lookup, purge_if_large, is_expired, failed, counted, fail, lock_duration,
  shifted,
}
use safe_dock.Limiter.Entries.{surviving, purged-cases, lookup-fail, lookup-fail_other}

le-shifted : (n : ℕ) → 900000000000 ≤ shifted n
unfolding shifted
le-shifted zero = omega arith
le-shifted (suc n) = omega (arith, le-shifted n)

le-lock_duration : (n : ℕ) → 900000000000 ≤ lock_duration n
unfolding lock_duration
le-lock_duration n = le-shifted _

-- The number of guesses `n` up to the time `last`, since `start`: at most five in every window, where the
-- windows are told apart by their start or by the end of a lock.
pub data Paced (start n last : ℕ) : Option Attempts → Type 0 where
  idle : 900000000000 * n + 5 * start ≤ 5 * last → Paced start n last none
  counting :
      (s : Attempts)
      → s.locked_until ≤ s.window_start
      → s.window_start ≤ last
      → s.count ≤ 4
      → 900000000000 * n + 5 * start ≤ 5 * s.window_start + 900000000000 * s.count
      → Paced start n last (some s)
  paused :
      (s : Attempts)
      → s.window_start + 900000000000 < s.locked_until
      → s.count ≡ 0
      → 900000000000 * n + 5 * start ≤ 5 * s.locked_until
      → 900000000000 * n + 5 * start ≤ 5 * last + 4500000000000
      → Paced start n last (some s)

pub Paced-later :
    (start n last now : ℕ) (o : Option Attempts)
    → Paced start n last o
    → last ≤ now
    → Paced start n now o
Paced-later start n last now none (idle h) l = idle (omega arith)
Paced-later start n last now (some s) (counting _ a b c d) l = counting s a (omega arith) c d
Paced-later start n last now (some s) (paused _ a b c d) l = paused s a b c (omega arith)

Paced-over :
    (start n now : ℕ) (s : Attempts)
    → Paced start n now (some s)
    → s.locked_until < now
    → 900000000000 < now - s.window_start
    → Paced start n now none
Paced-over start n now s (counting _ a b c d) k l = idle (omega arith)
Paced-over start n now s (paused _ a b c d) k l = idle (omega arith)

-- What a purge leaves is paced as well.
Paced-surviving :
    (start n now : ℕ) (o : Option Attempts)
    → Paced start n now o
    → Paced start n now (surviving now o)
unfolding surviving is_expired
Paced-surviving start n now none p = p
Paced-surviving start n now (some s) p = elim (Bool-cases (is_expired now s)) [
  | inl over ↦
      rw over (Paced-over start n now s p (ltb→lt _ _ (ground arith)) (ltb→lt _ _ (ground arith)))
  | inr kept ↦ rw kept p
]

pub Paced-purged :
    (start n now : ℕ) (k : Text) (m : Limiter)
    → Paced start n now (lookup k m)
    → Paced start n now (lookup k (purge_if_large now m))
Paced-purged start n now k m p = elim (purged-cases now k m) [
  | inl same ↦ rw same p
  | inr over ↦ rw over (Paced-surviving start n now (lookup k m) p)
]

-- No lock of the entry is running.
abbrev pub IsOpen : ℕ → Option Attempts → Type 0
IsOpen now none = Unit
IsOpen now (some s) = s.locked_until ≤ now

-- One more wrong guess.
counted-Paced :
    (start n last now : ℕ) (s : Attempts)
    → last < now
    → s.locked_until ≤ s.window_start
    → s.window_start ≤ last
    → s.count ≤ 4
    → 900000000000 * n + 5 * start ≤ 5 * s.window_start + 900000000000 * s.count
    → Paced start (suc n) now (some (counted 5 now s).0)
unfolding counted
counted-Paced start n last now s l a b c d = elim (Bool-cases (leb 5 (suc s.count))) [
  | inl full ↦ rw full (
      paused _ (omega (arith, le-lock_duration s.lock_count)) refl
        (omega (arith, le-lock_duration s.lock_count)) (omega arith))
  | inr more ↦ rw more (counting _ a (omega arith) (ground arith) (omega arith))
]

-- In a window that is over, the guess begins another one.
restarted :
    (now : ℕ) (s : Attempts)
    → 900000000000 < now - s.window_start
    → (failed 5 now (some s)).0 ≡ record s { count = 1; window_start = now }
unfolding failed counted
restarted now s h = rw (lt→ltb _ _ h) refl

continued :
    (now : ℕ) (s : Attempts)
    → ltb 900000000000 (now - s.window_start) ≡ false
    → failed 5 now (some s) ≡ counted 5 now s
unfolding failed
continued now s h = rw h refl

first_failed :
    (now : ℕ)
    → (failed 5 now none).0
      ≡ record { count = 1; window_start = now; locked_until = 0; lock_count = 0 }
unfolding failed counted
first_failed now = ground (arith)

failed_first-Paced :
    (start n now : ℕ)
    → Paced start n now none
    → Paced start (suc n) now (some (failed 5 now none).0)
failed_first-Paced start n now (idle h) =
    rw (first_failed now) (counting _ (omega arith) (omega arith) (omega arith) (omega arith))

failed-Paced :
    (start n last now : ℕ) (o : Option Attempts)
    → last < now
    → Paced start n last o
    → IsOpen now o
    → Paced start (suc n) now (some (failed 5 now o).0)
failed-Paced start n last now none l p i =
    failed_first-Paced start n now (Paced-later start n last now none p (omega arith))
failed-Paced start n last now (some s) l (paused _ a b c d) i =
    rw (restarted now s (omega arith)) (counting _ i (omega arith) (omega arith) (omega arith))
failed-Paced start n last now (some s) l (counting _ a b c d) i =
    elim (Bool-cases (ltb 900000000000 (now - s.window_start))) [
      | inl over ↦
          let late : 900000000000 < now - s.window_start = ltb→lt _ _ over in
          rw (restarted now s late) (counting _ i (omega arith) (omega arith) (omega arith))
      | inr within ↦ rw (continued now s within) (counted-Paced start n last now s l a b c d)
    ]

-- Behind a purge that may take the entry away.
failed_surviving-Paced :
    (start n last now : ℕ) (o : Option Attempts)
    → last < now
    → Paced start n last o
    → IsOpen now o
    → Paced start (suc n) now (some (failed 5 now (surviving now o)).0)
unfolding surviving is_expired
failed_surviving-Paced start n last now none l p i = failed-Paced start n last now none l p i
failed_surviving-Paced start n last now (some s) l p i = elim (Bool-cases (is_expired now s)) [
  | inl over ↦ rw over (
      failed_first-Paced start n now (
        Paced-over start n now s (Paced-later start n last now (some s) p (omega arith))
          (ltb→lt _ _ (ground arith)) (ltb→lt _ _ (ground arith))))
  | inr kept ↦ rw kept (failed-Paced start n last now (some s) l p i)
]

pub fail-Paced :
    (start n last now : ℕ) (k : Text) (m : Limiter)
    → last < now
    → Paced start n last (lookup k m)
    → IsOpen now (lookup k m)
    → Paced start (suc n) now (lookup k (fail k 5 now m).0)
fail-Paced start n last now k m l p i = rw (lookup-fail k 5 now m) (elim (purged-cases now k m) [
  | inl same ↦ rw same (failed-Paced start n last now (lookup k m) l p i)
  | inr over ↦ rw over (failed_surviving-Paced start n last now (lookup k m) l p i)
])

pub fail_other-Paced :
    (start n now : ℕ) (k j : Text) (max : ℕ) (m : Limiter)
    → text_eq k j ≡ false
    → Paced start n now (lookup k m)
    → Paced start n now (lookup k (fail j max now m).0)
fail_other-Paced start n now k j max m h p =
    rw (lookup-fail_other k j max now m h) (Paced-purged start n now k m p)

pub Paced-bound :
    (start n last : ℕ) (o : Option Attempts)
    → Paced start n last o
    → 900000000000 * n + 5 * start ≤ 5 * last + 4500000000000
Paced-bound start n last none (idle h) = omega arith
Paced-bound start n last (some s) (counting _ a b c d) = omega arith
Paced-bound start n last (some s) (paused _ a b c d) = d
