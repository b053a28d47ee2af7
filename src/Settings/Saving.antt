-- ===== src/Settings/Saving.antt =====
-- The form of the settings against the server.
use mathlib.Core.Path.{subst}
use safe_dock.Common.{
  ◌≡◌, refl, arith, [], ◌∷◌, true, ◌&&◌, some, Text, codes, text_eq, text_eq_iff, leb, All,
}
use safe_dock.Common.Int.{ℤ, print_int, print_int-filled}
use safe_dock.Http.{or_text}
use safe_dock.Trim.{trim, parse_int-print_int}
use safe_dock.Settings.{initial, load_config, Body, port_of, save_global}
use safe_dock.Settings.Server.{
  Row, Server, Strings, get_config, fits_int, decode_port, is_severity, is_scanner, is_default,
  is_category, is_base_url, save_settings, are_valid, set_retention_config, reload, set_base_url,
  post_decoded, post_port, post_config,
}

abbrev pub IsUpper : Text → Type 0
IsUpper s = All (λ c. (leb 65 c && leb c 90) ≡ true) s

abbrev pub IsLower : Text → Type 0
IsLower s = All (λ c. (leb 97 c && leb c 122) ≡ true) s

pub is_severity-IsUpper : (s : Text) → is_severity s ≡ true → IsUpper s
unfolding is_severity
is_severity-IsUpper s h = ground (
  arith,
  (text_eq_iff s (codes "LOW")).0,
  (text_eq_iff s (codes "MEDIUM")).0,
  (text_eq_iff s (codes "HIGH")).0,
  (text_eq_iff s (codes "CRITICAL")).0,
  (text_eq_iff s (codes "NONE")).0,
)

pub is_scanner-IsLower : (s : Text) → is_scanner s ≡ true → IsLower s
unfolding is_scanner
is_scanner-IsLower s h = ground (
  arith,
  (text_eq_iff s (codes "trivy")).0,
  (text_eq_iff s (codes "grype")).0,
  (text_eq_iff s (codes "hybrid")).0,
)

pub is_severity-filled : (s d : Text) → is_severity s ≡ true → or_text s d ≡ s
unfolding is_severity text_eq
is_severity-filled [] d h = cc
is_severity-filled (c ∷ s) d h = refl

pub is_scanner-filled : (s d : Text) → is_scanner s ≡ true → or_text s d ≡ s
unfolding is_scanner text_eq
is_scanner-filled [] d h = cc
is_scanner-filled (c ∷ s) d h = refl

port_of-print_int : (n : ℤ) → port_of (print_int n) ≡ some n
unfolding port_of
port_of-print_int n = ground (arith, print_int-filled n, parse_int-print_int n)

-- What the server keeps is what it would accept, and `s.cfg` agrees with the row.
pub record IsValid (s : Server) : Type 0 where
  pub loaded : reload s.row ≡ s
  pub severity : is_severity s.row.secops.max_severity_allowed ≡ true
  pub scanner : is_scanner s.row.secops.secops_scanner ≡ true
  pub retention : are_valid s.row.retention ≡ true

set_retention_config-kept :
    (r : Row) → are_valid r.retention ≡ true → set_retention_config r.retention r ≡ r
unfolding set_retention_config are_valid is_default is_category
set_retention_config-kept r h = ground arith

module _ (go : Strings) where
  abbrev pub reopened : Row → Body
  reopened r = save_global (load_config (get_config (reload r)) initial)

  post_reopened :
      (r : Row)
      → is_severity r.secops.max_severity_allowed ≡ true
      → is_scanner r.secops.secops_scanner ≡ true
      → are_valid r.retention ≡ true
      → is_base_url r.base_url ≡ true
      → trim r.base_url ≡ r.base_url
      → go.trim_space r.base_url ≡ r.base_url
      → post_decoded go r.smtp.port (reopened r) (reload r) ≡ (reload r, true)
  unfolding post_decoded save_global load_config get_config reload set_base_url save_settings
  post_reopened r sev scan ret url jt gt = ground (
    arith,
    is_severity-filled r.secops.max_severity_allowed (codes "HIGH") sev,
    is_scanner-filled r.secops.secops_scanner (codes "trivy") scan,
    go.to_upper_upper r.secops.max_severity_allowed
        (is_severity-IsUpper r.secops.max_severity_allowed sev),
    go.to_lower_lower r.secops.secops_scanner (is_scanner-IsLower r.secops.secops_scanner scan),
    set_retention_config-kept r ret,
  )

  post_reopened_port :
      (r : Row)
      → fits_int r.smtp.port ≡ true
      → post_decoded go r.smtp.port (reopened r) (reload r) ≡ (reload r, true)
      → post_config go (reopened r) (reload r) ≡ (reload r, true)
  unfolding post_config post_port decode_port save_global load_config get_config reload
  post_reopened_port r fits h = ground (arith, port_of-print_int r.smtp.port)

  -- Opening the settings and saving them at once is accepted and changes nothing: it is so for every
  -- server whose settings are valid, whose port is an `int`, and whose base URL is one that it would
  -- take, with no white space around it. The empty field of the password keeps the password.
  pub saved-opened :
      (s : Server)
      → IsValid s
      → fits_int s.row.smtp.port ≡ true
      → is_base_url s.row.base_url ≡ true
      → trim s.row.base_url ≡ s.row.base_url
      → go.trim_space s.row.base_url ≡ s.row.base_url
      → post_config go (save_global (load_config (get_config s) initial)) s ≡ (s, true)
  saved-opened s v fits url jt gt =
      subst (λ t. post_config go (save_global (load_config (get_config t) initial)) t ≡ (t, true))
        v.loaded
        (post_reopened_port s.row fits
          (post_reopened s.row v.severity v.scanner v.retention url jt gt))
