-- ===== src/Account/Tests.antt =====
-- A change of the own password, and an imposed one.
use safe_dock.Common.{codes}
use safe_dock.Account.{
  Account, Forced, silent, password_pressed, forced_submitted, step, forced_step, forced_initial,
}
use safe_dock.Account.Changes.{IsConfirmed, IsAccepted, sent-IsAccepted}

abbrev strong : Account
strong = record {
  first_name = codes "Ada";
  last_name = codes "L";
  profile_status = silent;
  cur_pw = codes "old";
  new_pw = codes "Abcdefghij1!";
  confirm_pw = codes "Abcdefghij1!";
  pw_status = silent;
}

abbrev imposed : Forced
imposed = record forced_initial { cur = codes "old"; nw = codes "Abcdefghij1!" }

sent-IsAccepted_example :
    IsConfirmed strong (step strong password_pressed).1
    × IsAccepted (forced_step imposed forced_submitted).1
sent-IsAccepted_example = sent-IsAccepted strong password_pressed imposed forced_submitted
