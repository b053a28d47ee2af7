-- ===== src/Account/Card.antt =====
-- The card of internal/web/frontend/src/components/AccountView.jsx, which shows the names as they stand
-- in the form.
use safe_dock.Common.{
  ◌++◌, Option, none, some, Text, codes, is_empty, not, ◌&&◌, take, if◌then◌else◌,
}
use safe_dock.Http.{or_text}
use safe_dock.Trim.{trim}
use safe_dock.Header.{full_name, role_label}
use safe_dock.Account.{Account}

-- `monogram`
unfoldable pub monogram : (to_upper : Text → Text) (first_name last_name email : Text) → Text
monogram to_upper first_name last_name email =
    let a = trim first_name in
    let b = trim last_name in
    let base = or_text (or_text a b) email in
    if not (is_empty a) && not (is_empty b)
    then to_upper (take 1 a ++ take 1 b)
    else (if is_empty base then codes "?" else to_upper (take 2 base))

pub record ProfileCard : Type 0 where
  pub letters : Text
  pub display_name : Text
  pub email : Text
  pub role : Text

abbrev or_itself : Option Text → Text → Text
or_itself none role = role
or_itself (some label) role = label

-- The card for the names of the form, with the address and the role of `me`.
unfoldable pub card : (to_upper : Text → Text) (a : Account) (email role : Text) → ProfileCard
unfolding monogram full_name role_label
card to_upper a email role = record {
  letters = monogram to_upper a.first_name a.last_name email;
  display_name = or_text (full_name a.first_name a.last_name) email;
  email = email;
  role = or_itself (role_label role) role;
}
