-- ===== src/Limiter/Tests.antt =====
-- Six wrong passwords for one account, a minute apart, and then another account from the same address.
use safe_dock.Common.{◌≡◌, refl, arith, ◌+◌, ◌*◌, ◌≤◌, ℕ, List, [], ◌∷◌, false, codes, text_eq}
use safe_dock.Limiter.{
  Request, password, too_many, minute, attempt_window, max_failed_attempts, lookup, put,
  purge_if_large, failed, counted, fail, fail_both, locked, locked_any, lock_duration, shifted,
  serve_checked, serve, run,
}
use safe_dock.Limiter.Guesses.{IsOrdered, guesses, guesses-bound}
use safe_dock.Limiter.Waits.{IsFair, served-IsFair}

abbrev guess : ℕ → Request
guess n = record {
  step = password;
  key = codes "bob";
  address = codes "10.0.0.9";
  time = n * minute;
  is_right = false;
}

abbrev session : List Request
session = guess 1 ∷ guess 2 ∷ guess 3 ∷ guess 4 ∷ guess 5 ∷ guess 6 ∷ []

session-IsOrdered : IsOrdered 0 session
session-IsOrdered =
    (omega arith, (omega arith, (omega arith, (omega arith, (omega arith, (omega arith, tt))))))

guesses_of-session : guesses (codes "bob") [] session ≡ 5
unfolding guesses serve serve_checked locked_any locked fail_both fail failed counted purge_if_large
    lookup put lock_duration shifted text_eq
guesses_of-session = refl

last_reply : (serve (guess 7) (run [] session)).1 ≡ too_many 14
unfolding run serve serve_checked locked_any locked fail_both fail failed counted purge_if_large
    lookup put lock_duration shifted text_eq
last_reply = refl

guesses-bound_example :
    attempt_window * guesses (codes "bob") [] session + max_failed_attempts * 0
    ≤ max_failed_attempts * (6 * minute) + max_failed_attempts * attempt_window
guesses-bound_example =
    guesses-bound (codes "bob") 0 session session-IsOrdered
      (refl, (refl, (refl, (refl, (refl, (refl, tt))))))

served-IsFair_example : IsFair (6 * minute) (7 * minute) (serve (guess 7) (run [] session)).1
served-IsFair_example = served-IsFair 0 session (guess 7) session-IsOrdered (omega arith)
