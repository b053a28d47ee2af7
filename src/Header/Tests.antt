-- ===== src/Header/Tests.antt =====
-- The name of an account.
use safe_dock.Common.{◌≡◌, refl, [], Text, codes, some}
use safe_dock.Account.{Account, silent, step}
use safe_dock.Account.Card.{card}
use safe_dock.Users.{name_of}
use safe_dock.Header.{Person, person_label, person_initials}
use safe_dock.Header.Names.{saved-names}

abbrev ada : Person
ada = record {
  first_name = codes "Ada";
  last_name = [];
  username = codes "ada@dock";
  role = codes "auditor";
}

abbrev form : Account
form = record {
  first_name = codes "Ada";
  last_name = [];
  profile_status = silent;
  cur_pw = [];
  new_pw = [];
  confirm_pw = [];
  pw_status = silent;
}

abbrev as_typed : Text → Text
as_typed s = s

saved-names_example :
    let shown = card as_typed form ada.username ada.role in
    (person_initials as_typed (some ada) ≡ shown.letters)
    × (person_label (some ada) ≡ shown.display_name)
    × (name_of ada.first_name ada.last_name ada.username ≡ shown.display_name)
unfolding step
saved-names_example = saved-names as_typed form ada refl (λ e. cc)
