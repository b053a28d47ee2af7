-- ===== src/PasswordPolicy/Tests.antt =====
-- Runs of the password check.
use safe_dock.Common.{◌≡◌, refl, arith, false, not, ◌||◌, some, Text, codes, leb}
use safe_dock.PasswordPolicy.{is_upper, is_lower, is_digit, check_password}
use safe_dock.PasswordPolicy.Server.{Unicode, is_ok, server_check}
use safe_dock.PasswordPolicy.Server.Agreement.{check_password-eq-server_check}

abbrev good_password : Text
good_password = codes "Harbour-Pilot7"

-- The tables of ASCII alone.
ascii : Unicode
unfolding is_upper is_lower is_digit
ascii = record {
  upper = is_upper;
  lower = is_lower;
  digit = is_digit;
  punct = λ c. not (is_upper c || is_lower c || is_digit c || leb c 32);
  symbol = λ c. false;
  upper_ascii = λ c p. refl;
  lower_ascii = λ c p. refl;
  digit_ascii = λ c p. refl;
  other_ascii = λ c p. ground arith;
}

check_password-eq-server_check_example :
    ((check_password (some good_password)).length ≡ (server_check ascii good_password).length)
    × ((check_password (some good_password)).upper ≡ (server_check ascii good_password).upper)
    × ((check_password (some good_password)).lower ≡ (server_check ascii good_password).lower)
    × ((check_password (some good_password)).digit ≡ (server_check ascii good_password).digit)
    × ((check_password (some good_password)).special ≡ (server_check ascii good_password).special)
    × ((check_password (some good_password)).ok ≡ is_ok (server_check ascii good_password))
check_password-eq-server_check_example =
    check_password-eq-server_check ascii good_password (omega arith)
