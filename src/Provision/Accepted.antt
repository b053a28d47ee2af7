-- ===== src/Provision/Accepted.antt =====
-- What internal/api/provision.go accepts, and what a shell makes of the script that it gives.
use safe_dock.Common.{
  ◌≡◌, refl, sym, ap, ◌∙◌, arith, ℕ, List, [], ◌∷◌, ◌++◌, Bool, true, false, not, ◌&&◌, ◌||◌, Text,
  codes, is_empty, text_eq, leb, ◌==◌, if◌then◌else◌,
}
use safe_dock.Provision.{
  bad_address, bad_user, bad_port, bad_ip, no_key, Server, Request, Script, accepted, refused,
  all_of, is_unix_user, is_user_char, is_host_addr, is_port, port_or_22, suffix, from_token,
  from_value, linux_script, windows_script, answer_for, user_of, provision, endpoint_of,
}
use safe_dock.Provision.Scripts.{
  unlines, linux_comments, linux_values, linux_rest, windows_comments, windows_values, windows_rest,
}
use safe_dock.Provision.Shell.{read, fresh}
use safe_dock.Provision.Literal.{
  IsPlain, is_plain, no_newline, all_of-All, all_of-imp, on_one_line, unlines-append, are_comments,
  read_comments, linux_comments-ok, windows_comments-ok, linux_commands, windows_commands,
  read-linux_values, read-windows_values,
}

user_char-plain : (c : ℕ) → is_user_char c ≡ true → is_plain c ≡ true
unfolding is_user_char
user_char-plain c h = ground arith

unix_user-IsPlain : (u : Text) → is_unix_user u ≡ true → IsPlain u
unfolding is_unix_user all_of
unix_user-IsPlain [] h = refl
unix_user-IsPlain (c ∷ u) h =
    let rest : IsPlain u =
      all_of-imp is_user_char is_plain user_char-plain u
        (all_of-All is_user_char u (ground arith)) in
    ground arith

suffix-line : (ip : Text) → IsPlain ip → all_of no_newline (suffix ip) ≡ true
unfolding suffix all_of
suffix-line [] h = refl
suffix-line (c ∷ ip) h = on_one_line (c ∷ ip) h

-- The cascade of the checks.
checks-pass :
    (a b c d e : Bool) (t s : Script)
    → (if not a
        then refused bad_address
        else (if not b
            then refused bad_user
            else (if not c
                then refused bad_port
                else (if d then refused bad_ip else (if e then refused no_key else accepted t)))))
      ≡ accepted s
    → (a ≡ true) × (b ≡ true) × (c ≡ true) × (d ≡ false) × (t ≡ s)
checks-pass false b c d e t s h = cc
checks-pass true false c d e t s h = cc
checks-pass true true false d e t s h = cc
checks-pass true true true true e t s h = cc
checks-pass true true true false true t s h = cc
checks-pass true true true false false t s h = (refl, refl, refl, refl, cc)

abbrev pub quoting_of : (is_windows : Bool) → ℕ
quoting_of true = b'`'
quoting_of false = b'\\'

abbrev pub value_commands : (is_windows : Bool) (key user ip : Text) → List (List Text)
value_commands true key user ip = windows_commands key user ip
value_commands false key user ip = linux_commands key user ip

abbrev pub constant_lines : (is_windows : Bool) → List Text
constant_lines true = windows_rest
constant_lines false = linux_rest

-- Comments, then the values, then the rest.
read_parts :
    (quoting : ℕ) (ks vs ls : List Text) (values : List (List Text))
    → are_comments ks ≡ true
    → ((t : Text) → read quoting (fresh []) (unlines vs ++ t) ≡ read quoting (fresh values) t)
    → read quoting (fresh []) (unlines (ks ++ (vs ++ ls)))
      ≡ read quoting (fresh values) (unlines ls)
read_parts quoting ks vs ls values h k =
    ap (read quoting (fresh [])) (unlines-append ks (vs ++ ls))
    ∙ (read_comments quoting [] ks (unlines (vs ++ ls)) h
        ∙ (ap (read quoting (fresh [])) (unlines-append vs ls) ∙ k (unlines ls)))

script-read :
    (is_windows : Bool) (key user ip endpoint : Text)
    → IsPlain key
    → IsPlain user
    → IsPlain ip
    → read (quoting_of is_windows) (fresh []) (answer_for is_windows key user ip endpoint).script
      ≡ read
          (quoting_of is_windows)
          (fresh (value_commands is_windows key user ip))
          (unlines (constant_lines is_windows))
unfolding answer_for linux_script windows_script
script-read true key user ip endpoint h k l =
    read_parts b'`' (windows_comments user (suffix ip)) (windows_values user key (from_value ip))
      windows_rest (windows_commands key user ip)
      (windows_comments-ok user (suffix ip) (on_one_line user k) (suffix-line ip l))
      (λ t. read-windows_values key user ip t h k l)
script-read false key user ip endpoint h k l =
    read_parts b'\\' (linux_comments user (suffix ip)) (linux_values user key (from_token ip))
      linux_rest (linux_commands key user ip)
      (linux_comments-ok user (suffix ip) (on_one_line user k) (suffix-line ip l))
      (λ t. read-linux_values key user ip t h k l)

key-IsPlain : (go : Server) → IsPlain (go.trim_space go.public_key)
key-IsPlain go = all_of-imp is_plain is_plain (λ c h. h) (go.trim_space go.public_key) go.key-plain

is_ip_char : ℕ → Bool
is_ip_char c = leb 48 c && leb c 58 || leb 65 c && leb c 70 || leb 97 c && leb c 102 || c == 46

ip_char-plain : (c : ℕ) → is_ip_char c ≡ true → is_plain c ≡ true
unfolding is_ip_char
ip_char-plain c h = ground arith

empty_or_parsed :
    (go : Server) (ip : Text) → (not (is_empty ip) && not (go.parses_ip ip)) ≡ false → IsPlain ip
unfolding is_ip_char all_of
empty_or_parsed go [] h = refl
empty_or_parsed go (c ∷ ip) h =
    all_of-imp is_ip_char is_plain ip_char-plain (c ∷ ip)
      (go.parses_ip-plain (c ∷ ip) (ground arith))

module _ (go : Server) (r : Request) where
  abbrev named_user : Text
  named_user = user_of go r

  abbrev from_ip : Text
  from_ip = go.trim_space r.controller_ip

  abbrev own_key : Text
  own_key = go.trim_space go.public_key

  abbrev for_windows : Bool
  for_windows = text_eq (go.to_lower (go.trim_space r.platform)) (codes "windows")

  abbrev target : Text
  target = go.trim_space r.address

  pub accepted-facts :
      (s : Script)
      → provision go r ≡ accepted s
      → (is_host_addr target ≡ true)
        × (is_unix_user named_user ≡ true)
        × (is_port (port_or_22 r.port) ≡ true)
        × ((not (is_empty from_ip) && not (go.parses_ip from_ip)) ≡ false)
        × (answer_for for_windows own_key named_user from_ip
              (endpoint_of named_user target (port_or_22 r.port))
            ≡ s)
  unfolding provision
  accepted-facts s h = checks-pass _ _ _ _ _ _ s h

  ip-IsPlain : (not (is_empty from_ip) && not (go.parses_ip from_ip)) ≡ false → IsPlain from_ip
  ip-IsPlain h = empty_or_parsed go from_ip h

  -- An accepted request gives a script that the shell of its platform reads as a fixed list of commands,
  -- in which the user, the key and the address of SafeDock stand as they are, followed by its constant
  -- part, where the key is one line with no quotation mark and an address that is parsed has only digits,
  -- letters, dots and colons.
  pub accepted-read :
      (s : Script)
      → provision go r ≡ accepted s
      → read (quoting_of for_windows) (fresh []) s.script
        ≡ read
            (quoting_of for_windows)
            (fresh (value_commands for_windows own_key named_user from_ip))
            (unlines (constant_lines for_windows))
  accepted-read s h =
      let (_, is_user, _, is_ip, same) = accepted-facts s h in
      ap (λ u. read (quoting_of for_windows) (fresh []) u.script) (sym same)
      ∙ script-read for_windows own_key named_user from_ip _ (key-IsPlain go)
          (unix_user-IsPlain named_user is_user) (ip-IsPlain is_ip)
