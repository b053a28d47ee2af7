-- ===== src/Settings/Choices.antt =====
-- What the selects of the settings can lead to.
use mathlib.Core.Path.{subst}
use safe_dock.Common.{
  ◌≡◌, refl, sym, arith, List, [], ◌∷◌, true, Option, none, some, Text, codes, is_empty, text_eq,
  if◌then◌else◌,
}
use safe_dock.Common.Int.{ℤ, pos, negsuc}
use safe_dock.Trim.{trim}
use safe_dock.Settings.{
  Form, initial, load_config, port_of, save_global, Severity, critical, high, medium, low, lowest,
  severity_value, Scanner, trivy, grype, hybrid, scanner_value, Period, month, quarter, half, year,
  unlimited, days, category_days, Choice, severity_chosen, scanner_chosen, retention_chosen,
  cve_chosen, notif_chosen, secaudit_chosen, seclogs_chosen, choose, choose_all,
}
use safe_dock.Settings.Server.{
  RetentionConfig, Row, Server, Strings, get_config, decode_port, is_severity, is_scanner,
  is_default, is_category, is_base_url, save_settings, are_valid, no_less_than_zero,
  no_less_than_inherit, set_retention_config, reload, set_base_url, post_decoded, post_port,
  post_config,
}
use safe_dock.Settings.Saving.{
  IsValid, is_severity-IsUpper, is_scanner-IsLower, is_severity-filled, is_scanner-filled,
}

abbrev pub retention_of : Form → RetentionConfig
retention_of f = record {
  default = f.ret;
  cve = f.ret_cve;
  notifications = f.ret_notif;
  security_audit = f.ret_secaudit;
  audit_logs = f.ret_seclogs;
}

-- What every form that the page can show satisfies.
record Fits (f : Form) : Type 0 where
  severity : is_severity f.severity ≡ true
  scanner : is_scanner f.scanner ≡ true
  default : is_default f.ret ≡ true
  cve : is_category f.ret_cve ≡ true
  notif : is_category f.ret_notif ≡ true
  secaudit : is_category f.ret_secaudit ≡ true
  seclogs : is_category f.ret_seclogs ≡ true

severity_value-valid : (s : Severity) → is_severity (severity_value s) ≡ true
unfolding is_severity severity_value text_eq
severity_value-valid critical = refl
severity_value-valid high = refl
severity_value-valid medium = refl
severity_value-valid low = refl
severity_value-valid lowest = refl

scanner_value-valid : (s : Scanner) → is_scanner (scanner_value s) ≡ true
unfolding is_scanner scanner_value text_eq
scanner_value-valid trivy = refl
scanner_value-valid grype = refl
scanner_value-valid hybrid = refl

days-valid : (p : Period) → is_default (days p) ≡ true
unfolding is_default days
days-valid month = refl
days-valid quarter = refl
days-valid half = refl
days-valid year = refl
days-valid unlimited = refl

category_days-valid : (p : Option Period) → is_category (category_days p) ≡ true
unfolding is_category is_default category_days days
category_days-valid none = refl
category_days-valid (some month) = refl
category_days-valid (some quarter) = refl
category_days-valid (some half) = refl
category_days-valid (some year) = refl
category_days-valid (some unlimited) = refl

choose-Fits : (f : Form) (c : Choice) → Fits f → Fits (choose f c)
unfolding choose
choose-Fits f (severity_chosen s) h = ground (arith, severity_value-valid s)
choose-Fits f (scanner_chosen s) h = ground (arith, scanner_value-valid s)
choose-Fits f (retention_chosen p) h = ground (arith, days-valid p)
choose-Fits f (cve_chosen p) h = ground (arith, category_days-valid p)
choose-Fits f (notif_chosen p) h = ground (arith, category_days-valid p)
choose-Fits f (secaudit_chosen p) h = ground (arith, category_days-valid p)
choose-Fits f (seclogs_chosen p) h = ground (arith, category_days-valid p)
choose-Fits f c h = ground arith

choose_all-Fits : (cs : List Choice) (f : Form) → Fits f → Fits (choose_all f cs)
unfolding choose_all
choose_all-Fits [] f h = h
choose_all-Fits (c ∷ cs) f h = choose_all-Fits cs (choose f c) (choose-Fits f c h)

opened-Fits : (r : Row) → IsValid (reload r) → Fits (load_config (get_config (reload r)) initial)
unfolding load_config get_config reload are_valid
opened-Fits r v = ground (
  arith,
  is_severity-filled r.secops.max_severity_allowed (codes "HIGH"),
  is_scanner-filled r.secops.secops_scanner (codes "trivy"),
)

-- The row that keeps what the form shows.
unfoldable pub kept_row : ℤ → Form → Text → Row → Row
kept_row port f url r = record {
  smtp = record {
    host = f.smtp_host;
    port = port;
    user = f.smtp_user;
    password = if is_empty f.smtp_pass then r.smtp.password else f.smtp_pass;
    from = f.smtp_from;
    tls_skip_verify = f.smtp_tls;
  };
  secops = record {
    max_severity_allowed = f.severity;
    allow_root = f.allow_root;
    allow_privileged = f.allow_privileged;
    secops_scanner = f.scanner;
  };
  retention = retention_of f;
  base_url = url;
}

-- Valid periods are stored as they are.
default_kept : (d : ℤ) → is_default d ≡ true → no_less_than_zero d ≡ d
unfolding is_default
default_kept (pos n) h = refl
default_kept (negsuc n) h = cc

category_kept : (d : ℤ) → is_category d ≡ true → no_less_than_inherit d ≡ d
unfolding is_category is_default
category_kept (pos n) h = refl
category_kept (negsuc n) h = ground arith

Fits-are_valid : (f : Form) → Fits f → are_valid (retention_of f) ≡ true
unfolding are_valid
Fits-are_valid f h = ground arith

kept_row-IsValid :
    (port : ℤ) (f : Form) (url : Text) (r : Row) → Fits f → IsValid (reload (kept_row port f url r))
unfolding kept_row reload
kept_row-IsValid port f url r h = record {
  loaded = refl;
  severity = h.severity;
  scanner = h.scanner;
  retention = Fits-are_valid f h;
}

module _ (go : Strings) where
  -- The base URL behind a save: an unfit one is dropped without a word.
  unfoldable pub kept_url : Form → Text → Text
  kept_url f old = let u = go.trim_space (trim f.base_url) in if is_base_url u then u else old

  post_fitting :
      (port : ℤ) (f : Form) (s : Server)
      → Fits f
      → post_decoded go port (save_global f) s
        ≡ (reload (kept_row port f (kept_url f s.row.base_url) s.row), true)
  unfolding post_decoded save_global set_base_url save_settings set_retention_config kept_row
      kept_url reload
  post_fitting port f s h = ground (
    arith,
    go.to_upper_upper f.severity (is_severity-IsUpper f.severity h.severity),
    go.to_lower_lower f.scanner (is_scanner-IsLower f.scanner h.scanner),
    h.severity,
    h.scanner,
    Fits-are_valid f h,
    default_kept f.ret h.default,
    category_kept f.ret_cve h.cve,
    category_kept f.ret_notif h.notif,
    category_kept f.ret_secaudit h.secaudit,
    category_kept f.ret_seclogs h.seclogs,
  )

  post_config_fitting :
      (port : ℤ) (f : Form) (s : Server)
      → Fits f
      → decode_port (port_of f.smtp_port) ≡ some port
      → post_config go (save_global f) s
        ≡ (reload (kept_row port f (kept_url f s.row.base_url) s.row), true)
  unfolding post_config post_port save_global
  post_config_fitting port f s h p = rw p (post_fitting port f s h)

  -- No choice that the page offers is refused: whatever is typed and chosen in the form of a valid
  -- server, if what `parseInt` reads of the port, or 0 where that is no number, is an `int`, then the
  -- save is accepted, and the server is valid again. It keeps the port as read that way, the old
  -- password where the field of the password is empty, the base URL without blanks around, or the old one
  -- where that is unfit, and every other field as the form has it.
  pub chosen-IsValid :
      (s : Server)
      → IsValid s
      → (cs : List Choice) (port : ℤ)
      → decode_port (port_of (choose_all (load_config (get_config s) initial) cs).smtp_port)
        ≡ some port
      → let f = choose_all (load_config (get_config s) initial) cs in
        let kept = reload (kept_row port f (kept_url f s.row.base_url) s.row) in
        (post_config go (save_global f) s ≡ (kept, true)) × IsValid kept
  chosen-IsValid s v cs port p =
      let f = choose_all (load_config (get_config s) initial) cs in
      let fits = choose_all-Fits cs (load_config (get_config s) initial) (
        subst (λ t. Fits (load_config (get_config t) initial)) v.loaded
          (opened-Fits s.row (subst IsValid (sym v.loaded) v))) in
      (
        post_config_fitting port f s fits p,
        kept_row-IsValid port f (kept_url f s.row.base_url) s.row fits,
      )
