-- ===== src/Limiter/Guesses.antt =====
-- How many wrong guesses internal/auth/limiter.go and internal/auth/auth.go let through on one account.
use safe_dock.Common.{
  ◌≡◌, refl, sym, arith, ℕ, suc, ◌+◌, ◌*◌, ◌<◌, ◌≤◌, List, [], ◌∷◌, ◌++◌, Bool, true, false, ◌&&◌,
  Option, none, some, Text, codes, text_eq, text_eq_iff, if◌then◌else◌, Bool-cases, inl, inr, All,
}
use safe_dock.Limiter.{
  Attempts, Limiter, Request, Reply, Step, password, code, too_many, wrong, passed, attempt_window,
  max_failed_attempts, lookup, reset, fail, locked, locked_any, left_of, first_of, user_key, ip_key,
  fail_both, accept, serve_checked, serve, run,
}
use safe_dock.Limiter.Entries.{lookup-reset_other}
use safe_dock.Limiter.Pace.{
  Paced, idle, IsOpen, Paced-later, fail-Paced, fail_other-Paced, Paced-bound,
}

-- The requests come one after the other, behind `last`.
abbrev pub IsOrdered : (last : ℕ) → List Request → Type 0
IsOrdered last [] = Unit
IsOrdered last (r ∷ rs) = (last < r.time) × IsOrdered r.time rs

abbrev pub last_time : ℕ → List Request → ℕ
last_time last [] = last
last_time last (r ∷ rs) = last_time r.time rs

abbrev pub is_code : Step → Bool
is_code password = false
is_code code = true

-- A sign-in of the account that comes to its end.
abbrev pub is_success : Text → Request → Bool
is_success k r = is_code r.step && (r.is_right && text_eq k r.key)

abbrev is_wrong : Reply → Bool
is_wrong (too_many n) = false
is_wrong (wrong b) = true
is_wrong passed = false

-- The wrong passwords and codes of an account that were looked at.
unfoldable pub guesses : Text → Limiter → List Request → ℕ
guesses k m [] = 0
guesses k m (r ∷ rs) =
    let (after, reply) = serve r m in
    let rest = guesses k after rs in if is_wrong reply && text_eq k r.key then suc rest else rest

account : Text → Text
account k = codes "user:" ++ k

left-IsOpen : (now : ℕ) (o : Option Attempts) → left_of now o ≡ none → IsOpen now o
left-IsOpen now none h = tt
left-IsOpen now (some s) h = ground arith

first_of-none : (d e : Option ℕ) → first_of d e ≡ none → d ≡ none
first_of-none none e h = refl
first_of-none (some d) e h = cc

checked-IsOpen :
    (now : ℕ) (u i : Text) (m : Limiter)
    → locked_any now (u ∷ i ∷ []) m ≡ none
    → IsOpen now (lookup u m)
unfolding locked_any locked
checked-IsOpen now u i m h = left-IsOpen now (lookup u m) (first_of-none _ _ h)

by_account :
    (start n last now : ℕ) (k : Text) (r : Request) (m : Limiter)
    → last < now
    → Paced start n last (lookup (account k) m)
    → IsOpen now (lookup (user_key r) m)
    → Paced start
        (if text_eq k r.key then suc n else n)
        now
        (lookup (account k) (fail (user_key r) 5 now m).0)
unfolding text_eq account
by_account start n last now k r m l p i = elim (Bool-cases (text_eq k r.key)) [
  | inl same ↦
      let e : k ≡ r.key = (text_eq_iff k r.key).0 same in
      let free : IsOpen now (lookup (account k) m) = rw e i in
      rw same (rw (sym e) (fail-Paced start n last now (account k) m l p free))
  | inr differ ↦ rw differ (
      fail_other-Paced start n now (account k) (user_key r) 5 m differ
        (Paced-later start n last now _ p (omega arith)))
]

-- Behind a wrong guess, on the entry of the account.
fail_both-Paced :
    (start n last : ℕ) (k : Text) (r : Request) (m : Limiter)
    → last < r.time
    → Paced start n last (lookup (account k) m)
    → IsOpen r.time (lookup (user_key r) m)
    → Paced start
        (if text_eq k r.key then suc n else n)
        r.time
        (lookup (account k) (fail_both r m).0)
unfolding fail_both text_eq account
fail_both-Paced start n last k r m l p i =
    fail_other-Paced start _ r.time (account k) (ip_key r) 20 (fail (user_key r) 5 r.time m).0 refl
      (by_account start n last r.time k r m l p i)

accept-Paced :
    (start n now : ℕ) (k : Text) (s : Step) (r : Request) (m : Limiter)
    → (is_code s && text_eq k r.key) ≡ false
    → Paced start n now (lookup (account k) m)
    → Paced start n now (lookup (account k) (accept s r m))
unfolding accept text_eq account
accept-Paced start n now k password r m h p = p
accept-Paced start n now k code r m h p =
    rw
      (
        lookup-reset_other (account k) (ip_key r) (reset (user_key r) m) refl,
        lookup-reset_other (account k) (user_key r) m h,
      )
      p

checked-Paced :
    (start n last : ℕ) (k : Text) (r : Request) (m : Limiter)
    → last < r.time
    → Paced start n last (lookup (account k) m)
    → IsOpen r.time (lookup (user_key r) m)
    → (is_right : Bool) → (is_code r.step && (is_right && text_eq k r.key)) ≡ false
    → let (after, reply) = if is_right then (accept r.step r m, passed) else fail_both r m in
      Paced start
        (if is_wrong reply && text_eq k r.key then suc n else n)
        r.time
        (lookup (account k) after)
unfolding fail_both
checked-Paced start n last k r m l p i true h =
    accept-Paced start n r.time k r.step r m h
      (Paced-later start n last r.time (lookup (account k) m) p (omega arith))
checked-Paced start n last k r m l p i false h = fail_both-Paced start n last k r m l p i

served-Paced :
    (start n last : ℕ) (k : Text) (r : Request) (m : Limiter)
    → last < r.time
    → is_success k r ≡ false
    → Paced start n last (lookup (account k) m)
    → (d : Option ℕ) → locked_any r.time (user_key r ∷ ip_key r ∷ []) m ≡ d
    → Paced start
        (if is_wrong (serve_checked d r m).1 && text_eq k r.key then suc n else n)
        r.time
        (lookup (account k) (serve_checked d r m).0)
unfolding serve_checked
served-Paced start n last k r m l h p (some left) e =
    Paced-later start n last r.time (lookup (account k) m) p (omega arith)
served-Paced start n last k r m l h p none e =
    checked-Paced start n last k r m l p (checked-IsOpen r.time (user_key r) (ip_key r) m e)
      r.is_right h

-- One request.
serve-Paced :
    (start n last : ℕ) (k : Text) (r : Request) (m : Limiter)
    → last < r.time
    → is_success k r ≡ false
    → Paced start n last (lookup (account k) m)
    → Paced start
        (if is_wrong (serve r m).1 && text_eq k r.key then suc n else n)
        r.time
        (lookup (account k) (serve r m).0)
unfolding serve
serve-Paced start n last k r m l h p =
    served-Paced start n last k r m l h p (locked_any r.time (user_key r ∷ ip_key r ∷ []) m) refl

run-Paced :
    (start : ℕ) (k : Text) (rs : List Request) (n last : ℕ) (m : Limiter)
    → IsOrdered last rs
    → All (λ r. is_success k r ≡ false) rs
    → Paced start n last (lookup (account k) m)
    → (sum : ℕ) → sum ≡ guesses k m rs + n
    → Paced start sum (last_time last rs) (lookup (account k) (run m rs))
unfolding guesses run
run-Paced start k [] n last m o h p sum e = let same : sum ≡ n = omega arith in rw same p
run-Paced start k (r ∷ rs) n last m o h p sum e =
    run-Paced start k rs _ r.time (serve r m).0 o.1 h.1 (serve-Paced start n last k r m o.0 h.0 p)
      sum (ground arith)

-- When the requests are handled one after the other, and no sign-in of an account comes to its end, then at most five
-- wrong passwords or codes are looked at for that account, and five more in each quarter of an hour.
pub guesses-bound :
    (k : Text) (start : ℕ) (rs : List Request)
    → IsOrdered start rs
    → All (λ r. is_success k r ≡ false) rs
    → attempt_window * guesses k [] rs + max_failed_attempts * start
      ≤ max_failed_attempts * last_time start rs + max_failed_attempts * attempt_window
unfolding lookup account
guesses-bound k start rs o h =
    Paced-bound start (guesses k [] rs) (last_time start rs) (lookup (account k) (run [] rs))
      (run-Paced start k rs 0 start [] o h (idle (omega arith)) (guesses k [] rs) (omega arith))
