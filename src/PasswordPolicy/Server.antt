-- ===== src/PasswordPolicy/Server.antt =====
-- internal/crypto/password.go, `CheckPassword`: the server's verdict, which is the authority. The
-- tables of Go's package unicode are a parameter; what is used of them is their ASCII part.
pub mod Agreement
use safe_dock.Common.{
  ℕ, zero, suc, ◌≤◌, ◌+◌, List, [], ◌∷◌, Bool, true, false, not, ◌&&◌, ◌||◌, some, ◌≡◌, refl, arith,
  Text, leb, any, if◌then◌else◌, All, length,
}
use safe_dock.PasswordPolicy.{
  is_upper, is_lower, is_digit, is_special, is_space, is_high, is_low, code_points, check_password,
  password_min_length,
}

-- A printable ASCII character, the space included.
abbrev pub IsPrintable : ℕ → Type 0
IsPrintable c = (32 ≤ c) × (c ≤ 126)

-- The classes of package unicode, and what they are on printable ASCII.
pub record Unicode : Type 0 where
  pub upper : ℕ → Bool
  pub lower : ℕ → Bool
  pub digit : ℕ → Bool
  pub punct : ℕ → Bool
  pub symbol : ℕ → Bool
  pub upper_ascii : (c : ℕ) → IsPrintable c → upper c ≡ is_upper c
  pub lower_ascii : (c : ℕ) → IsPrintable c → lower c ≡ is_lower c
  pub digit_ascii : (c : ℕ) → IsPrintable c → digit c ≡ is_digit c
  -- Every printable character that is no letter, digit or space is punctuation or a symbol.
  pub other_ascii :
      (c : ℕ)
      → IsPrintable c
      → (punct c || symbol c) ≡ not (is_upper c || is_lower c || is_digit c || leb c 32)

-- `PasswordChecks`
pub record ServerChecks : Type 0 where
  pub length : Bool
  pub upper : Bool
  pub lower : Bool
  pub digit : Bool
  pub special : Bool

-- `OK`
abbrev pub is_ok : ServerChecks → Bool
is_ok c = c.length && c.upper && c.lower && c.digit && c.special

is_space_ascii : (c : ℕ) → IsPrintable c → is_space c ≡ leb c 32
unfolding is_space
is_space_ascii c p = ground arith

-- Each printable character has one class.
classes_apart :
    (c : ℕ)
    → ((is_upper c && is_lower c) ≡ false)
      × ((is_upper c && is_digit c) ≡ false)
      × ((is_lower c && is_digit c) ≡ false)
unfolding is_upper is_lower is_digit
classes_apart c = ground arith

module _ (u : Unicode) where
  -- The body of the loop: the first class that fits.
  mark : ServerChecks → ℕ → ServerChecks
  mark c r =
      if u.upper r
      then record c { upper = true }
      else (if u.lower r
          then record c { lower = true }
          else (if u.digit r
              then record c { digit = true }
              else (if u.punct r || u.symbol r then record c { special = true } else c)))

  mark_all : ServerChecks → Text → ServerChecks
  mark_all c [] = c
  mark_all c (r ∷ rs) = mark_all (mark c r) rs

  unfoldable pub server_check : Text → ServerChecks
  unfolding mark_all mark
  server_check pw =
      mark_all
        (record {
          length = leb password_min_length (length pw);
          upper = false;
          lower = false;
          digit = false;
          special = false;
        })
        pw

  -- What one character adds.
  mark_lem :
      (c : ServerChecks) (r : ℕ)
      → IsPrintable r
      → mark c r ≡ record {
        length = c.length;
        upper = c.upper || is_upper r;
        lower = c.lower || is_lower r;
        digit = c.digit || is_digit r;
        special = c.special || is_special r;
      }
  unfolding mark is_special
  mark_lem c r p = ground (
    arith,
    u.upper_ascii r p,
    u.lower_ascii r p,
    u.digit_ascii r p,
    u.other_ascii r p,
    is_space_ascii r p,
    classes_apart r,
  )
