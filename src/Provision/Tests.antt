-- ===== src/Provision/Tests.antt =====
-- A host that is opened to one address, under Linux and under Windows.
use safe_dock.Common.{◌≡◌, refl, [], true, false, not, ◌&&◌, ◌||◌, codes, text_eq, leb, ◌==◌, some}
use safe_dock.Common.Int.{pos, print_int, parse_digits}
use safe_dock.Common.Decimal.{decimal}
use safe_dock.PasswordPolicy.{is_space}
use safe_dock.Trim.{trim, parse_int}
use safe_dock.Agents
use safe_dock.Agents.{Agents, Asked, linux, script_request, on_generated, payload, is_ssh}
use safe_dock.Provision.{
  Server, Request, Script, accepted, all_of, provision, answer_for, user_of, endpoint_of,
  is_unix_user, is_host_addr, is_port, port_or_22,
}
use safe_dock.Provision.Scripts.{unlines, linux_rest}
use safe_dock.Provision.Shell.{read, fresh}
use safe_dock.Provision.Literal.{all_of-All}
use safe_dock.Provision.Accepted.{accepted-read, value_commands, constant_lines}
use safe_dock.Provision.Endpoint.{received, answered, generated-endpoint}

abbrev server : Server
unfolding all_of trim is_space
server = record {
  trim_space = trim;
  to_lower = λ t. t;
  parses_ip =
      all_of
        (λ c. leb 48 c && leb c 58 || leb 65 c && leb c 70 || leb 97 c && leb c 102 || c == 46);
  public_key = codes "ssh-ed25519 AAAAC3Nz\n";
  parses_ip-plain = λ t h.
      all_of-All
        (λ c. leb 48 c && leb c 58 || leb 65 c && leb c 70 || leb 97 c && leb c 102 || c == 46) t h;
  key-plain =
      all_of-All (λ c. not (c == b'\'') && not (c == b'\n')) (codes "ssh-ed25519 AAAAC3Nz") refl;
}

abbrev request : Request
request = record {
  address = codes "192.168.1.20";
  port = pos 0;
  user = codes " ";
  controller_ip = codes "10.0.0.5";
  platform = codes "linux";
}

abbrev script : Script
script =
    answer_for false (codes "ssh-ed25519 AAAAC3Nz") (codes "safedock") (codes "10.0.0.5")
      (codes "ssh://safedock@192.168.1.20:22")

request-accepted : provision server request ≡ accepted script
unfolding provision trim is_space is_host_addr is_unix_user is_port port_or_22 endpoint_of print_int
    decimal user_of text_eq answer_for all_of
request-accepted = refl

accepted-read_example :
    read b'\\' (fresh []) script.script
    ≡ read b'\\'
        (fresh (
          value_commands false
            (codes "ssh-ed25519 AAAAC3Nz")
            (codes "safedock")
            (codes "10.0.0.5")))
        (unlines (constant_lines false))
unfolding trim is_space user_of text_eq server linux_rest
accepted-read_example = accepted-read server request script request-accepted

-- The form of the page, as it is filled in.
abbrev form : Agents
form = record Agents.initial {
  ssh_addr = codes " 192.168.1.20 ";
  ssh_port = codes "2222x";
  name = codes "nas";
}

abbrev from_form : Script
from_form =
    answer_for false (codes "ssh-ed25519 AAAAC3Nz") (codes "safedock") []
      (codes "ssh://safedock@192.168.1.20:2222")

form-accepted : provision server (received (script_request form)) ≡ accepted from_form
unfolding provision trim is_space is_host_addr is_unix_user is_port port_or_22 endpoint_of print_int
    decimal user_of text_eq answer_for all_of received script_request parse_int parse_digits
form-accepted = refl

abbrev closure : Asked
closure = record { platform = linux; address = codes " 192.168.1.20 "; named = codes "nas" }

generated-endpoint_example :
    let b = on_generated (some closure) (answered from_form) form in
    ((payload b).endpoint ≡ codes "ssh://safedock@192.168.1.20:2222")
    × (is_ssh b ≡ true)
    × (is_unix_user (codes "safedock") ≡ true)
    × (is_host_addr (codes "192.168.1.20") ≡ true)
    × (is_port (pos 2222) ≡ true)
unfolding trim is_space user_of port_or_22 endpoint_of print_int decimal received script_request
    parse_int server parse_digits
generated-endpoint_example = generated-endpoint server form closure from_form form-accepted
