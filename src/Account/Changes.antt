-- ===== src/Account/Changes.antt =====
-- What the two forms send, and what becomes of it.
use safe_dock.Common.{◌≡◌, arith, true, Option, none, some, text_eq_iff}
use safe_dock.PasswordPolicy.{check_password}
use safe_dock.Account.{
  Answer, resolved, rejected, Account, Effect, post_password, change_password, Event,
  first_name_typed, last_name_typed, cur_typed, new_typed, confirm_typed, password_pressed,
  profile_pressed, password_answered, profile_answered, profile_faded, step, Wait, change, done,
  Forced, ForcedEvent, forced_cur_typed, forced_new_typed, forced_submitted, logged_out,
  forced_answered, submit, on_answer, forced_step,
}

-- What may be sent as a new password.
abbrev pub IsAccepted : Effect → Type 0
IsAccepted (post_password current new) = (check_password (some new)).ok ≡ true
IsAccepted _ = Unit

abbrev pub IsConfirmed : Account → Effect → Type 0
IsConfirmed a (post_password current new) =
    ((check_password (some new)).ok ≡ true) × (new ≡ a.confirm_pw) × (current ≡ a.cur_pw)
IsConfirmed a _ = Unit

change_password-IsConfirmed : (a : Account) → IsConfirmed a (change_password a).1
unfolding change_password
change_password-IsConfirmed a = ground (arith, (text_eq_iff a.new_pw a.confirm_pw).0)

step-IsConfirmed : (a : Account) (e : Event) → IsConfirmed a (step a e).1
unfolding step
step-IsConfirmed a (first_name_typed v) = tt
step-IsConfirmed a (last_name_typed v) = tt
step-IsConfirmed a (cur_typed v) = tt
step-IsConfirmed a (new_typed v) = tt
step-IsConfirmed a (confirm_typed v) = tt
step-IsConfirmed a password_pressed = change_password-IsConfirmed a
step-IsConfirmed a profile_pressed = tt
step-IsConfirmed a (password_answered resolved) = tt
step-IsConfirmed a (password_answered (rejected m)) = tt
step-IsConfirmed a (profile_answered resolved) = tt
step-IsConfirmed a (profile_answered (rejected m)) = tt
step-IsConfirmed a profile_faded = tt

submit-IsAccepted : (f : Forced) → IsAccepted (submit f).1
unfolding submit
submit-IsAccepted f = ground arith

on_answer-IsAccepted : (w : Option Wait) (r : Answer) (f : Forced) → IsAccepted (on_answer w r f).1
unfolding on_answer
on_answer-IsAccepted none r f = tt
on_answer-IsAccepted (some change) resolved f = tt
on_answer-IsAccepted (some change) (rejected m) f = tt
on_answer-IsAccepted (some done) resolved f = tt
on_answer-IsAccepted (some done) (rejected m) f = tt

forced_step-IsAccepted : (f : Forced) (e : ForcedEvent) → IsAccepted (forced_step f e).1
unfolding forced_step
forced_step-IsAccepted f (forced_cur_typed v) = tt
forced_step-IsAccepted f (forced_new_typed v) = tt
forced_step-IsAccepted f forced_submitted = ground (arith, submit-IsAccepted f)
forced_step-IsAccepted f logged_out = tt
forced_step-IsAccepted f (forced_answered r) = on_answer-IsAccepted f.waiting r f

-- Neither of the two forms for one's own password, that of the account page and that of the imposed
-- change, sends one that the policy refuses: in every state and whatever happens, what the account
-- page sends is accepted, is what stands in the field of the confirmation, and goes with
-- the current password as typed; and what the imposed change sends is accepted.
pub sent-IsAccepted :
    (a : Account) (e : Event) (f : Forced) (d : ForcedEvent)
    → IsConfirmed a (step a e).1 × IsAccepted (forced_step f d).1
sent-IsAccepted a e f d = (step-IsConfirmed a e, forced_step-IsAccepted f d)
