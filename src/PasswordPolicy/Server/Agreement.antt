-- ===== src/PasswordPolicy/Server/Agreement.antt =====
-- The live check of the console against the server's verdict.
use safe_dock.Common.{ℕ, [], ◌∷◌, false, ◌||◌, some, ◌≡◌, refl, arith, Text, leb, any, All, length}
use safe_dock.PasswordPolicy.{
  is_upper, is_lower, is_digit, is_special, is_high, code_points, check_password,
  password_min_length,
}
use safe_dock.PasswordPolicy.Server.{
  IsPrintable, Unicode, ServerChecks, is_ok, mark, mark_all, mark_lem, server_check,
}

printable-ne-high : (c : ℕ) → IsPrintable c → is_high c ≡ false
unfolding is_high
printable-ne-high c p = ground arith

code_points-ascii : (s : Text) → All IsPrintable s → code_points s ≡ length s
unfolding code_points
code_points-ascii [] h = refl
code_points-ascii (a ∷ []) h = refl
code_points-ascii (a ∷ b ∷ s) h =
    ground (arith, printable-ne-high a h.0, code_points-ascii (b ∷ s) h.1)

module _ (u : Unicode) where
  -- The classes met so far, and those of the characters that are left.
  mark_all_lem :
      (c : ServerChecks) (s : Text)
      → All IsPrintable s
      → mark_all u c s ≡ record {
        length = c.length;
        upper = c.upper || any is_upper s;
        lower = c.lower || any is_lower s;
        digit = c.digit || any is_digit s;
        special = c.special || any is_special s;
      }
  unfolding mark_all
  mark_all_lem c [] h = ground arith
  mark_all_lem c (r ∷ rs) h = ground (arith, mark_lem u c r h.0, mark_all_lem (mark u c r) rs h.1)

  server_check_lem :
      (s : Text)
      → All IsPrintable s
      → server_check u s ≡ record {
        length = leb password_min_length (length s);
        upper = any is_upper s;
        lower = any is_lower s;
        digit = any is_digit s;
        special = any is_special s;
      }
  unfolding server_check
  server_check_lem s h = mark_all_lem _ s h

  -- On printable ASCII the console and the server give the same verdict, rule by rule and as a
  -- whole, whatever the tables of package unicode say of other characters.
  pub check_password-eq-server_check :
      (s : Text)
      → All IsPrintable s
      → ((check_password (some s)).length ≡ (server_check u s).length)
        × ((check_password (some s)).upper ≡ (server_check u s).upper)
        × ((check_password (some s)).lower ≡ (server_check u s).lower)
        × ((check_password (some s)).digit ≡ (server_check u s).digit)
        × ((check_password (some s)).special ≡ (server_check u s).special)
        × ((check_password (some s)).ok ≡ is_ok (server_check u s))
  unfolding check_password
  check_password-eq-server_check s h =
      rw (server_check_lem s h, code_points-ascii s h) (refl, refl, refl, refl, refl, refl)
