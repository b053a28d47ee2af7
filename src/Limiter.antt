-- ===== src/Limiter.antt =====
-- internal/auth/limiter.go: the counters of failed sign-ins, by account and by address, with what
-- `HandleLogin` and `HandleLoginVerify` of internal/auth/auth.go do with them. Times and durations are in
-- nanoseconds; 0 is Go's zero time. Requests are handled one after the other. A request whose account
-- cannot be read from the storage stands outside.
pub mod Entries
pub mod Pace
pub mod Guesses
pub mod Waits
mod Tests
use safe_dock.Common.{
  ℕ, zero, suc, ◌+◌, ◌-◌, ◌*◌, ◌/◌, List, [], ◌∷◌, ◌++◌, Bool, true, false, not, ◌&&◌, ◌||◌, Option,
  none, some, Text, codes, text_eq, ltb, leb, ◌==◌, if◌then◌else◌, length,
}

abbrev pub minute : ℕ
minute = 60000000000

-- `maxFailedAttempts`, `maxIPAttempts`, `attemptWindow`, `lockoutDuration` and `maxBackoffShift`
abbrev pub max_failed_attempts : ℕ
max_failed_attempts = 5

abbrev pub max_ip_attempts : ℕ
max_ip_attempts = 20

abbrev pub attempt_window : ℕ
attempt_window = 900000000000

abbrev pub lockout_duration : ℕ
lockout_duration = 900000000000

abbrev pub max_backoff_shift : ℕ
max_backoff_shift = 4

-- `attemptState`
pub record Attempts : Type 0 where
  pub count : ℕ
  pub window_start : ℕ
  pub locked_until : ℕ
  pub lock_count : ℕ

-- `loginLimiter`: a key stands in it once.
abbrev pub Limiter : Type 0
Limiter = List (Text × Attempts)

-- `l.m[key]`
unfoldable pub lookup : Text → Limiter → Option Attempts
lookup k [] = none
lookup k ((k', s) ∷ m) = if text_eq k k' then some s else lookup k m

unfoldable pub put : Text → Attempts → Limiter → Limiter
put k s [] = (k, s) ∷ []
put k s ((k', s') ∷ m) =
    let rest = put k s m in if text_eq k k' then (k', s) ∷ m else (k', s') ∷ rest

-- `delete(l.m, key)`, which is also `reset`.
unfoldable pub reset : Text → Limiter → Limiter
reset k [] = []
reset k ((k', s) ∷ m) = let rest = reset k m in if text_eq k k' then rest else (k', s) ∷ rest

-- `locked`, with the time that is left.
abbrev pub left_of : ℕ → Option Attempts → Option ℕ
left_of now none = none
left_of now (some s) = if ltb now s.locked_until then some (s.locked_until - now) else none

unfoldable pub locked : (now : ℕ) → Text → Limiter → Option ℕ
locked now k m = left_of now (lookup k m)

abbrev pub first_of : Option ℕ → Option ℕ → Option ℕ
first_of none d = d
first_of (some e) d = some e

-- `lockedAny`
unfoldable pub locked_any : (now : ℕ) → List Text → Limiter → Option ℕ
unfolding locked
locked_any now [] m = none
locked_any now (k ∷ ks) m = first_of (locked now k m) (locked_any now ks m)

unfoldable pub is_expired : (now : ℕ) → Attempts → Bool
is_expired now s = ltb s.locked_until now && ltb attempt_window (now - s.window_start)

-- The entries that are over are deleted.
unfoldable pub purge : (now : ℕ) → Limiter → Limiter
unfolding reset is_expired
purge now [] = []
purge now ((k, s) ∷ m) =
    let rest = purge now m in if is_expired now s then reset k rest else (k, s) ∷ rest

unfoldable pub purge_if_large : (now : ℕ) → Limiter → Limiter
unfolding purge
purge_if_large now m = if ltb 4096 (length m) then purge now m else m

-- `lockoutDuration << shift`
unfoldable pub shifted : (shift : ℕ) → ℕ
shifted zero = lockout_duration
shifted (suc n) = 2 * shifted n

unfoldable pub lock_duration : (lock_count : ℕ) → ℕ
unfolding shifted
lock_duration n = shifted (if ltb max_backoff_shift n then max_backoff_shift else n)

abbrev pub begun : (now : ℕ) → Option Attempts → Attempts
begun now none = record { count = 0; window_start = now; locked_until = 0; lock_count = 0 }
begun now (some s) = s

abbrev pub in_window : (now : ℕ) → Attempts → Attempts
in_window now s =
    if ltb attempt_window (now - s.window_start)
    then record s { count = 0; window_start = now }
    else s

-- The counter is increased, and the key is locked at its limit.
unfoldable pub counted : (max now : ℕ) → Attempts → Attempts × Bool
unfolding lock_duration
counted max now s =
    if leb max (suc s.count)
    then (
      record s {
        count = 0;
        locked_until = now + lock_duration s.lock_count;
        lock_count = suc s.lock_count;
      },
      true,
    )
    else (record s { count = suc s.count }, false)

-- A failure, on the entry of its key.
unfoldable pub failed : (max now : ℕ) → Option Attempts → Attempts × Bool
unfolding counted
failed max now o = counted max now (in_window now (begun now o))

-- `fail`
unfoldable pub fail : (key : Text) (max now : ℕ) → Limiter → Limiter × Bool
unfolding purge_if_large lookup put failed
fail k max now m =
    let large = purge_if_large now m in
    let (s, just_locked) = failed max now (lookup k large) in (put k s large, just_locked)

-- `/api/login` and `/api/login/verify`
pub data Step : Type 0 where
  password code : Step

-- `key` is the name of the account, in lower case; `is_right` says what the password or the code is.
pub record Request : Type 0 where
  pub step : Step
  pub key : Text
  pub address : Text
  pub time : ℕ
  pub is_right : Bool

pub data Reply : Type 0 where
  -- With the minutes of the message.
  too_many : ℕ → Reply
  -- With whether the journal says that the key has just been locked.
  wrong : Bool → Reply
  passed : Reply

abbrev pub user_key : Request → Text
user_key r = codes "user:" ++ r.key

abbrev pub ip_key : Request → Text
ip_key r = codes "ip:" ++ r.address

unfoldable pub fail_both : Request → Limiter → Limiter × Reply
unfolding fail
fail_both r m =
    let (one, user_locked) = fail (user_key r) max_failed_attempts r.time m in
    let (two, ip_locked) = fail (ip_key r) max_ip_attempts r.time one in
    (two, wrong (user_locked || ip_locked))

unfoldable pub accept : Step → Request → Limiter → Limiter
unfolding reset
accept password r m = m
accept code r m = reset (ip_key r) (reset (user_key r) m)

unfoldable pub serve_checked : Option ℕ → Request → Limiter → Limiter × Reply
unfolding fail_both accept
serve_checked (some left) r m = (m, too_many (left / minute + 1))
serve_checked none r m = if r.is_right then (accept r.step r m, passed) else fail_both r m

unfoldable pub serve : Request → Limiter → Limiter × Reply
unfolding serve_checked locked_any
serve r m = serve_checked (locked_any r.time (user_key r ∷ ip_key r ∷ []) m) r m

unfoldable pub run : Limiter → List Request → Limiter
unfolding serve
run m [] = m
run m (r ∷ rs) = run (serve r m).0 rs
