-- ===== src/Settings/Tests.antt =====
-- A server, and a session on its settings.
use safe_dock.Common.{
  ◌≡◌, refl, ◌+◌, ◌-◌, ◌&&◌, ℕ, List, [], ◌∷◌, true, false, Text, codes, leb, if◌then◌else◌, map,
  All, arith, text_eq, none, some,
}
use safe_dock.Common.Int.{pos, negsuc, parse_digits}
use safe_dock.PasswordPolicy.{is_space}
use safe_dock.Trim.{trim, parse_int}
use safe_dock.Settings.{
  initial, load_config, save_global, port_of, choose, choose_all, Choice, host_typed, port_typed,
  url_typed, severity_chosen, lowest, cve_chosen, root_toggled,
}
use safe_dock.Settings.Mail.{press, untested, test_body, test_config}
use safe_dock.Settings.Mail.Agreement.{tested-saved}
use safe_dock.Settings.Server.{
  Row, Strings, get_config, post_config, reload, is_base_url, fits_int, is_severity, is_scanner,
  are_valid, decode_port,
}
use safe_dock.Settings.Saving.{IsValid, saved-opened}
use safe_dock.Settings.Choices.{kept_row, kept_url, chosen-IsValid}

ascii_upper : ℕ → ℕ
ascii_upper c = if leb 97 c && leb c 122 then c - 32 else c

ascii_lower : ℕ → ℕ
ascii_lower c = if leb 65 c && leb c 90 then c + 32 else c

map_upper : (s : Text) → All (λ c. (leb 65 c && leb c 90) ≡ true) s → map ascii_upper s ≡ s
unfolding ascii_upper
map_upper [] h = refl
map_upper (c ∷ s) h = ground (arith, map_upper s h.1)

map_lower : (s : Text) → All (λ c. (leb 97 c && leb c 122) ≡ true) s → map ascii_lower s ≡ s
unfolding ascii_lower
map_lower [] h = refl
map_lower (c ∷ s) h = ground (arith, map_lower s h.1)

-- The package strings on ASCII.
abbrev ascii : Strings
ascii = record {
  to_upper = map ascii_upper;
  to_lower = map ascii_lower;
  trim_space = trim;
  to_upper_upper = map_upper;
  to_lower_lower = map_lower;
}

abbrev stored : Row
stored = record {
  smtp = record {
    host = codes "mail";
    port = pos 587;
    user = codes "dock";
    password = codes "secret";
    from = codes "a@b";
    tls_skip_verify = false;
  };
  secops = record {
    max_severity_allowed = codes "HIGH";
    allow_root = true;
    allow_privileged = false;
    secops_scanner = codes "grype";
  };
  retention = record {
    default = pos 90;
    cve = pos 365;
    notifications = negsuc 0;
    security_audit = negsuc 0;
    audit_logs = pos 0;
  };
  base_url = codes "https://dock";
}

stored-IsValid : IsValid (reload stored)
unfolding is_severity is_scanner are_valid reload text_eq
stored-IsValid = record { loaded = refl; severity = refl; scanner = refl; retention = refl }

saved-opened_example :
    post_config ascii
      (save_global (load_config (get_config (reload stored)) initial))
      (reload stored)
    ≡ (reload stored, true)
unfolding fits_int is_base_url trim reload is_space
saved-opened_example = saved-opened ascii (reload stored) stored-IsValid refl refl refl refl

-- The port is no number, and the address no URL.
abbrev choices : List Choice
choices =
    port_typed (codes "-")
    ∷ url_typed (codes " dock ")
    ∷ severity_chosen lowest
    ∷ cve_chosen none
    ∷ root_toggled
    ∷ []

chosen-IsValid_example :
    let f = choose_all (load_config (get_config (reload stored)) initial) choices in
    let kept = reload (kept_row (pos 0) f (kept_url ascii f (codes "https://dock")) stored) in
    (post_config ascii (save_global f) (reload stored) ≡ (kept, true)) × IsValid kept
unfolding load_config get_config choose_all decode_port port_of reload choose parse_int parse_digits
    is_space
chosen-IsValid_example = chosen-IsValid ascii (reload stored) stored-IsValid choices (pos 0) refl

-- Another host and another port, with the old password.
abbrev moved : List Choice
moved = host_typed (codes "smtp") ∷ port_typed (codes "25") ∷ []

tested-saved_example :
    let f = choose_all (load_config (get_config (reload stored)) initial) moved in
    ((press f untested).1 ≡ some (test_body f))
    × ((post_config ascii (save_global f) (reload stored)).0.smtp
        ≡ test_config ascii (test_body f) (reload stored).smtp)
    × ((post_config ascii (save_global f) (reload stored)).1 ≡ true)
unfolding load_config get_config choose_all decode_port port_of reload choose parse_int parse_digits
    is_space fits_int trim
tested-saved_example =
    tested-saved ascii (reload stored) stored-IsValid moved (pos 25) untested refl (λ e. cc)
      (refl, λ e. cc) (refl, λ e. cc) (refl, λ e. cc) refl
