-- ===== src/Provision/Endpoint.antt =====
-- The address of a host, from the form of internal/web/frontend/src/components/AgentsView.jsx through
-- internal/api/provision.go and back into the form.
use safe_dock.Common.{
  ◌≡◌, refl, sym, ap, ◌∙◌, arith, ℕ, [], ◌∷◌, Bool, true, false, not, ◌&&◌, ◌||◌, some, Text, codes,
  text_eq, leb, ◌==◌, if◌then◌else◌, All,
}
use safe_dock.Common.Int.{ℤ, pos, negsuc, print_int}
use safe_dock.Common.Decimal.{decimal, IsDigit, decimal-IsDigit}
use safe_dock.PasswordPolicy.{is_space}
use safe_dock.Inventory.{has_prefix}
use safe_dock.Trim.{trim, trim_left, trim_right}
use safe_dock.Agents
use safe_dock.Agents.{
  Agents, Asked, Platform, linux, windows, ScriptRequest, script_request, on_generated, payload,
  is_ssh,
}
use safe_dock.Provision.{
  Server, Request, Script, answer_for, accepted, all_of, is_unix_user, is_user_char, is_host_addr,
  is_host_char, is_port, port_or_22, user_of, provision, endpoint_of,
}
use safe_dock.Provision.Literal.{all_of-All, all_of-imp, all_of-append}
use safe_dock.Provision.Accepted.{accepted-facts}

platform_text : Platform → Text
platform_text linux = codes "linux"
platform_text windows = codes "windows"

-- What the server reads of a request of the page.
unfoldable pub received : ScriptRequest → Request
unfolding platform_text
received q = record {
  address = q.address;
  port = q.port;
  user = q.user;
  controller_ip = q.controller_ip;
  platform = platform_text q.platform;
}

-- What the page reads of an answer.
unfoldable pub answered : Script → Agents.Script
answered s = record {
  script = s.script;
  platform = if text_eq s.platform (codes "windows") then some windows else some linux;
  endpoint = s.endpoint;
}

is_solid : ℕ → Bool
is_solid c = not (is_space c)

trim_left-solid : (s : Text) → all_of is_solid s ≡ true → trim_left s ≡ s
unfolding trim_left all_of is_solid
trim_left-solid [] h = refl
trim_left-solid (c ∷ s) h = ground arith

trim_right-solid : (s : Text) → all_of is_solid s ≡ true → trim_right s ≡ s
unfolding trim_right all_of is_solid
trim_right-solid [] h = refl
trim_right-solid (c ∷ s) h = ground (arith, trim_right-solid s (ground arith))

trim-solid : (s : Text) → all_of is_solid s ≡ true → trim s ≡ s
unfolding trim
trim-solid s h = ap trim_right (trim_left-solid s h) ∙ trim_right-solid s h

host_char-solid : (c : ℕ) → is_host_char c ≡ true → is_solid c ≡ true
unfolding is_host_char is_solid is_space
host_char-solid c h = ground arith

user_char-solid : (c : ℕ) → is_user_char c ≡ true → is_solid c ≡ true
unfolding is_user_char is_solid is_space
user_char-solid c h = ground arith

lower-user : (c : ℕ) → (leb b'a' c && leb c b'z' || c == b'_') ≡ true → is_user_char c ≡ true
unfolding is_user_char
lower-user c h = ground arith

digits-solid : (s : Text) → All IsDigit s → all_of is_solid s ≡ true
unfolding is_solid is_space all_of
digits-solid [] h = refl
digits-solid (c ∷ s) h = ground (arith, digits-solid s h.1)

user-solid : (u : Text) → is_unix_user u ≡ true → all_of is_solid u ≡ true
unfolding is_unix_user all_of
user-solid [] h = refl
user-solid (c ∷ u) h =
    let first : is_user_char c ≡ true = lower-user c (ground arith) in
    let rest : all_of is_solid u ≡ true =
      all_of-imp is_user_char is_solid user_char-solid u
        (all_of-All is_user_char u (ground arith)) in
    ground (arith, user_char-solid c first)

host-solid : (s : Text) → is_host_addr s ≡ true → all_of is_solid s ≡ true
unfolding is_host_addr
host-solid s h =
    all_of-imp is_host_char is_solid host_char-solid s (all_of-All is_host_char s (ground arith))

port-solid : (p : ℤ) → is_port p ≡ true → all_of is_solid (print_int p) ≡ true
unfolding is_port print_int
port-solid (pos n) h = digits-solid (decimal n) (decimal-IsDigit n)
port-solid (negsuc n) h = cc

endpoint-solid :
    (user address : Text) (p : ℤ)
    → is_unix_user user ≡ true
    → is_host_addr address ≡ true
    → is_port p ≡ true
    → all_of is_solid (endpoint_of user address p) ≡ true
unfolding endpoint_of all_of is_solid is_space
endpoint-solid user address p h k l =
    rw
      (
        all_of-append is_solid user _,
        all_of-append is_solid address _,
        user-solid user h,
        host-solid address k,
        port-solid p l,
      )
      refl

endpoint-answer_for :
    (is_windows : Bool) (key user ip endpoint : Text)
    → (answer_for is_windows key user ip endpoint).endpoint ≡ endpoint
unfolding answer_for
endpoint-answer_for true key user ip endpoint = refl
endpoint-answer_for false key user ip endpoint = refl

prefix-endpoint_of :
    (user address : Text) (p : ℤ) → has_prefix (endpoint_of user address p) (codes "ssh://") ≡ true
unfolding endpoint_of
prefix-endpoint_of user address p = refl

-- When a script is generated for the form, then the address that the form registers or tests from there on is
-- the one of the answer, `ssh://user@address:port` with the user and the address that the server accepted and
-- a port from 1 to 65535, and the form shows the fields of SSH.
pub generated-endpoint :
    (go : Server) (a : Agents) (k : Asked) (s : Script)
    → provision go (received (script_request a)) ≡ accepted s
    → let r = received (script_request a) in
      let user = user_of go r in
      let address = go.trim_space r.address in
      let b = on_generated (some k) (answered s) a in
      ((payload b).endpoint ≡ endpoint_of user address (port_or_22 r.port))
      × (is_ssh b ≡ true)
      × (is_unix_user user ≡ true)
      × (is_host_addr address ≡ true)
      × (is_port (port_or_22 r.port) ≡ true)
unfolding on_generated payload is_ssh answered
generated-endpoint go a k s h =
    let (is_addr, is_user, is_there, _, same) =
      accepted-facts go (received (script_request a)) s h in
    let user = user_of go (received (script_request a)) in
    let address = go.trim_space (received (script_request a)).address in
    let p = port_or_22 (received (script_request a)).port in
    let plain : s.endpoint ≡ endpoint_of user address p =
      ap (λ u. u.endpoint) (sym same) ∙ endpoint-answer_for _ _ _ _ _ in
    let trimmed : trim s.endpoint ≡ endpoint_of user address p =
      ap trim plain ∙ trim-solid _ (endpoint-solid user address p is_user is_addr is_there) in
    (
      trimmed,
      ap (λ t. has_prefix t (codes "ssh://")) trimmed ∙ prefix-endpoint_of user address p,
      is_user,
      is_addr,
      is_there,
    )
