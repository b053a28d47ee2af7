-- ===== src/PasswordPolicy.antt =====
-- internal/web/frontend/src/lib/passwordPolicy.js and components/PasswordChecklist.jsx: the live
-- check of a new password. The child Server models the authority, internal/crypto/password.go.
pub mod Laws
pub mod Server
mod Tests
use safe_dock.Common.{
  ℕ, suc, List, [], ◌∷◌, Bool, true, false, not, ◌&&◌, ◌||◌, Option, none, some, String, Text,
  codes, leb, ◌==◌, if◌then◌else◌, any,
}

-- `PASSWORD_MIN_LENGTH`
abbrev pub password_min_length : ℕ
password_min_length = 12

-- The classes of the regular expressions, on code units.
unfoldable pub is_upper : ℕ → Bool
is_upper c = leb b'A' c && leb c b'Z'

unfoldable pub is_lower : ℕ → Bool
is_lower c = leb b'a' c && leb c b'z'

unfoldable pub is_digit : ℕ → Bool
is_digit c = leb b'0' c && leb c b'9'

-- `\s`: white space and line terminators
unfoldable pub is_space : ℕ → Bool
is_space c =
    (leb 0x9 c && leb c 0xd)
    || c == 0x20
    || c == 0xa0
    || c == 0x1680
    || (leb 0x2000 c && leb c 0x200a)
    || c == 0x2028
    || c == 0x2029
    || c == 0x202f
    || c == 0x205f
    || c == 0x3000
    || c == 0xfeff

-- `[^A-Za-z0-9\s]`
unfoldable pub is_special : ℕ → Bool
is_special c = not (is_upper c || is_lower c || is_digit c || is_space c)

unfoldable pub is_high : ℕ → Bool
is_high c = leb 0xd800 c && leb c 0xdbff

unfoldable pub is_low : ℕ → Bool
is_low c = leb 0xdc00 c && leb c 0xdfff

-- `[...s].length`: a surrogate pair is one code point.
unfoldable pub code_points : Text → ℕ
code_points [] = 0
code_points (a ∷ []) = 1
code_points (a ∷ b ∷ s) =
    let pair = suc (code_points s) in
    let single = suc (code_points (b ∷ s)) in if is_high a && is_low b then pair else single

pub record Checks : Type 0 where
  pub length : Bool
  pub upper : Bool
  pub lower : Bool
  pub digit : Bool
  pub special : Bool
  pub ok : Bool

-- `pw || ''`
abbrev or_empty : Option Text → Text
or_empty none = []
or_empty (some s) = s

unfoldable pub check_password : Option Text → Checks
check_password pw =
    let s = or_empty pw in
    let length = leb password_min_length (code_points s) in
    let upper = any is_upper s in
    let lower = any is_lower s in
    let digit = any is_digit s in
    let special = any is_special s in
    record {
      length = length;
      upper = upper;
      lower = lower;
      digit = digit;
      special = special;
      ok = length && upper && lower && digit && special;
    }

-- The message of the forms that refuse a password.
abbrev pub weak_message : Text
weak_message = codes "Le mot de passe ne respecte pas la politique de sécurité."

-- `PASSWORD_RULES`: the key and the label of each rule.
pub data Rule : Type 0 where
  length upper lower digit special : Rule

abbrev pub password_rules : List Rule
password_rules = length ∷ upper ∷ lower ∷ digit ∷ special ∷ []

abbrev pub label : Rule → String
label length = "Au moins 12 caractères"
label upper = "Une majuscule (A-Z)"
label lower = "Une minuscule (a-z)"
label digit = "Un chiffre (0-9)"
label special = "Un caractère spécial (!@#$…)"

-- `checks[key]`
abbrev pub check_of : Checks → Rule → Bool
check_of c length = c.length
check_of c upper = c.upper
check_of c lower = c.lower
check_of c digit = c.digit
check_of c special = c.special

-- One line of the list: the text, with a tick or a cross.
pub record Item : Type 0 where
  pub text : String
  pub ticked : Bool

rows : Checks → List Rule → List Item
rows c [] = []
rows c (r ∷ rs) = record { text = label r; ticked = check_of c r } ∷ rows c rs

-- `PasswordChecklist`: nothing is shown for an empty password.
unfoldable pub password_checklist : Text → Option (List Item)
unfolding rows
password_checklist [] = none
password_checklist (c ∷ s) = some (rows (check_password (some (c ∷ s))) password_rules)
