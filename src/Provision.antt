-- ===== src/Provision.antt =====
-- The script that opens a host to SafeDock: `HandleHostProvision` of internal/api/provision.go behind its
-- check of the role. The requests come from the page of the hosts (Agents). `net.ParseIP`, `TrimSpace`,
-- `ToLower` and the public key are parameters; the answer of a key that cannot be read is that of an
-- empty one.
pub mod Scripts
pub mod Shell
pub mod Literal
pub mod Accepted
pub mod Endpoint
mod Tests
use safe_dock.Common.{
  ◌≡◌, ◌≢◌, List, [], ◌∷◌, ◌++◌, Bool, true, false, not, ◌&&◌, ◌||◌, ℕ, Text, codes, is_empty,
  text_eq, ltb, leb, ◌==◌, if◌then◌else◌, length, All,
}
use safe_dock.Common.Int.{ℤ, pos, negsuc, print_int}
use safe_dock.Http.{or_text}
use safe_dock.Provision.Scripts.{
  unlines, linux_comments, linux_values, linux_rest, windows_comments, windows_values, windows_rest,
}

-- What the handler relies on: an address that is parsed has only digits, letters, dots and colons, and a
-- key is one line with no quotation mark.
pub record Server : Type 0 where
  pub trim_space : Text → Text
  pub to_lower : Text → Text
  pub parses_ip : Text → Bool
  pub public_key : Text
  pub parses_ip-plain :
      (t : Text)
      → parses_ip t ≡ true
      → All
          (λ c.
            (leb 48 c && leb c 58 || leb 65 c && leb c 70 || leb 97 c && leb c 102 || c == 46)
            ≡ true)
          t
  pub key-plain : All (λ c. (not (c == b'\'') && not (c == b'\n')) ≡ true) (trim_space public_key)

pub record Request : Type 0 where
  pub address : Text
  pub port : ℤ
  pub user : Text
  pub controller_ip : Text
  pub platform : Text

pub data Refusal : Type 0 where
  bad_address bad_user bad_port bad_ip no_key : Refusal

pub record Script : Type 0 where
  pub script : Text
  pub endpoint : Text
  pub platform : Text
  pub filename : Text

pub data Answer : Type 0 where
  refused : Refusal → Answer
  accepted : Script → Answer

abbrev is_lower : ℕ → Bool
is_lower c = leb b'a' c && leb c b'z'

abbrev is_upper : ℕ → Bool
is_upper c = leb b'A' c && leb c b'Z'

abbrev is_digit : ℕ → Bool
is_digit c = leb b'0' c && leb c b'9'

unfoldable pub all_of : (ℕ → Bool) → Text → Bool
all_of p [] = true
all_of p (c ∷ s) = p c && all_of p s

-- `[A-Za-z0-9_.:-]`
unfoldable pub is_host_char : ℕ → Bool
is_host_char c =
    is_upper c || is_lower c || is_digit c || c == b'_' || c == b'.' || c == b':' || c == b'-'

-- `reHostAddr`
unfoldable pub is_host_addr : Text → Bool
unfolding all_of is_host_char
is_host_addr s = leb 1 (length s) && leb (length s) 253 && all_of is_host_char s

-- `[a-z0-9_-]`
unfoldable pub is_user_char : ℕ → Bool
is_user_char c = is_lower c || is_digit c || c == b'_' || c == b'-'

-- `reUnixUser`
unfoldable pub is_unix_user : Text → Bool
unfolding all_of is_user_char
is_unix_user [] = false
is_unix_user (c ∷ s) = (is_lower c || c == b'_') && leb (length s) 31 && all_of is_user_char s

-- `port == 0` stands for 22.
unfoldable pub port_or_22 : ℤ → ℤ
port_or_22 (pos n) = if n == 0 then pos 22 else pos n
port_or_22 (negsuc n) = negsuc n

unfoldable pub is_port : ℤ → Bool
is_port (pos n) = leb 1 n && leb n 65535
is_port (negsuc n) = false

-- `descSuffix`
unfoldable pub suffix : Text → Text
suffix [] = []
suffix (c ∷ s) = codes ", et uniquement depuis " ++ (c ∷ s)

-- `fromToken`
unfoldable pub from_token : Text → Text
from_token [] = codes "''"
from_token (c ∷ s) = codes "'from=\"" ++ ((c ∷ s) ++ codes "\",'")

-- `fromValue`
unfoldable pub from_value : Text → Text
from_value s = b'\'' ∷ (s ++ b'\'' ∷ [])

-- `buildProvisionScript`
unfoldable pub linux_script : (key user ip : Text) → Text
linux_script key user ip =
    unlines
      (linux_comments user (suffix ip) ++ (linux_values user key (from_token ip) ++ linux_rest))

-- `buildProvisionScriptWindows`
unfoldable pub windows_script : (key user ip : Text) → Text
windows_script key user ip =
    unlines (
      windows_comments user (suffix ip)
      ++ (windows_values user key (from_value ip) ++ windows_rest))

-- `ssh://%s@%s:%d`
unfoldable pub endpoint_of : (user address : Text) (port : ℤ) → Text
endpoint_of user address port =
    codes "ssh://" ++ (user ++ (b'@' ∷ (address ++ (b':' ∷ print_int port))))

unfoldable pub answer_for : (is_windows : Bool) (key user ip endpoint : Text) → Script
answer_for true key user ip endpoint = record {
  script = windows_script key user ip;
  endpoint = endpoint;
  platform = codes "windows";
  filename = codes "safedock-provision.ps1";
}
answer_for false key user ip endpoint = record {
  script = linux_script key user ip;
  endpoint = endpoint;
  platform = codes "linux";
  filename = codes "safedock-provision.sh";
}

module _ (go : Server) where
  unfoldable pub user_of : Request → Text
  user_of r = or_text (go.trim_space r.user) (codes "safedock")

  unfoldable pub provision : Request → Answer
  unfolding user_of
  provision r =
      let address = go.trim_space r.address in
      let user = user_of r in
      let port = port_or_22 r.port in
      let ip = go.trim_space r.controller_ip in
      let key = go.trim_space go.public_key in
      if not (is_host_addr address)
      then refused bad_address
      else (if not (is_unix_user user)
          then refused bad_user
          else (if not (is_port port)
              then refused bad_port
              else (if not (is_empty ip) && not (go.parses_ip ip)
                  then refused bad_ip
                  else (if is_empty key
                      then refused no_key
                      else accepted (
                          answer_for
                            (text_eq (go.to_lower (go.trim_space r.platform)) (codes "windows")) key
                            user ip (endpoint_of user address port))))))
