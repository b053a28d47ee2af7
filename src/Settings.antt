-- ===== src/Settings.antt =====
-- The global settings of internal/web/frontend/src/components/SettingsView.jsx: how the form is filled
-- from /api/config (`useEffect` on `config`), what its fields and selects do to it, and the body that
-- `saveGlobal` sends. The child Server models the handlers of /api/config in internal/api/handlers.go.
pub mod Server
pub mod Saving
pub mod Choices
pub mod Mail
mod Tests
use safe_dock.Common.{
  ℕ, List, [], ◌∷◌, Bool, true, false, not, Option, none, some, Text, codes, is_empty,
  if◌then◌else◌,
}
use safe_dock.Common.Int.{ℤ, pos, negsuc, print_int}
use safe_dock.Http.{or_text}
use safe_dock.Trim.{trim, parse_int}

-- The answer of /api/config, as the form reads it: a missing text is empty, a missing flag false.
pub record Retention : Type 0 where
  pub default : Option ℤ
  pub cve : Option ℤ
  pub notifications : Option ℤ
  pub security_audit : Option ℤ
  pub audit_logs : Option ℤ

pub record Config : Type 0 where
  pub host : Text
  pub port : Option ℤ
  pub user : Text
  pub from : Text
  pub tls_skip_verify : Bool
  pub max_severity_allowed : Text
  pub allow_root : Bool
  pub allow_privileged : Bool
  pub secops_scanner : Text
  pub retention_days : Option ℤ
  pub retention : Retention
  pub base_url : Text

pub record Form : Type 0 where
  pub severity : Text
  pub allow_root : Bool
  pub allow_privileged : Bool
  pub scanner : Text
  pub smtp_host : Text
  pub smtp_port : Text
  pub smtp_user : Text
  pub smtp_pass : Text
  pub smtp_from : Text
  pub smtp_tls : Bool
  pub base_url : Text
  pub ret : ℤ
  pub ret_cve : ℤ
  pub ret_notif : ℤ
  pub ret_secaudit : ℤ
  pub ret_seclogs : ℤ

-- -1 stands for the default of the server.
abbrev pub inherit : ℤ
inherit = negsuc 0

abbrev pub initial : Form
initial = record {
  severity = codes "HIGH";
  allow_root = false;
  allow_privileged = false;
  scanner = codes "trivy";
  smtp_host = [];
  smtp_port = [];
  smtp_user = [];
  smtp_pass = [];
  smtp_from = [];
  smtp_tls = false;
  base_url = [];
  ret = pos 90;
  ret_cve = inherit;
  ret_notif = inherit;
  ret_secaudit = inherit;
  ret_seclogs = inherit;
}

-- `v != null ? v : d`
abbrev pub or_int : Option ℤ → ℤ → ℤ
or_int none d = d
or_int (some v) d = v

-- `config.SMTP?.Port != null ? String(config.SMTP.Port) : ''`
abbrev pub port_text : Option ℤ → Text
port_text none = []
port_text (some n) = print_int n

-- The effect on `config`. The password is left as it is.
unfoldable pub load_config : Config → Form → Form
load_config c f = record {
  severity = or_text c.max_severity_allowed (codes "HIGH");
  allow_root = c.allow_root;
  allow_privileged = c.allow_privileged;
  scanner = or_text c.secops_scanner (codes "trivy");
  smtp_host = c.host;
  smtp_port = port_text c.port;
  smtp_user = c.user;
  smtp_pass = f.smtp_pass;
  smtp_from = c.from;
  smtp_tls = c.tls_skip_verify;
  base_url = c.base_url;
  ret = or_int c.retention.default (or_int c.retention_days (pos 90));
  ret_cve = or_int c.retention.cve inherit;
  ret_notif = or_int c.retention.notifications inherit;
  ret_secaudit = or_int c.retention.security_audit inherit;
  ret_seclogs = or_int c.retention.audit_logs inherit;
}

-- The body of the request; a number that is NaN becomes `null`.
pub record Body : Type 0 where
  pub max_severity_allowed : Text
  pub allow_root : Bool
  pub allow_privileged : Bool
  pub scanner : Text
  pub smtp_host : Text
  pub smtp_port : Option ℤ
  pub smtp_user : Text
  pub smtp_password : Text
  pub smtp_from : Text
  pub smtp_tls_skip_verify : Bool
  pub base_url : Text
  pub retention_days : ℤ
  pub default : ℤ
  pub cve : ℤ
  pub notifications : ℤ
  pub security_audit : ℤ
  pub audit_logs : ℤ

-- `smtpPort ? parseInt(smtpPort, 10) : 0`
unfoldable pub port_of : Text → Option ℤ
port_of s = if is_empty s then some (pos 0) else parse_int s

-- What `saveGlobal` sends.
unfoldable pub save_global : Form → Body
save_global f = record {
  max_severity_allowed = f.severity;
  allow_root = f.allow_root;
  allow_privileged = f.allow_privileged;
  scanner = f.scanner;
  smtp_host = f.smtp_host;
  smtp_port = port_of f.smtp_port;
  smtp_user = f.smtp_user;
  smtp_password = f.smtp_pass;
  smtp_from = f.smtp_from;
  smtp_tls_skip_verify = f.smtp_tls;
  base_url = trim f.base_url;
  retention_days = f.ret;
  default = f.ret;
  cve = f.ret_cve;
  notifications = f.ret_notif;
  security_audit = f.ret_secaudit;
  audit_logs = f.ret_seclogs;
}

-- The options of the selects.
pub data Severity : Type 0 where
  critical high medium low lowest : Severity

unfoldable pub severity_value : Severity → Text
severity_value critical = codes "CRITICAL"
severity_value high = codes "HIGH"
severity_value medium = codes "MEDIUM"
severity_value low = codes "LOW"
severity_value lowest = codes "NONE"

pub data Scanner : Type 0 where
  trivy grype hybrid : Scanner

unfoldable pub scanner_value : Scanner → Text
scanner_value trivy = codes "trivy"
scanner_value grype = codes "grype"
scanner_value hybrid = codes "hybrid"

pub data Period : Type 0 where
  month quarter half year unlimited : Period

unfoldable pub days : Period → ℤ
days month = pos 30
days quarter = pos 90
days half = pos 180
days year = pos 365
days unlimited = pos 0

-- The first option of `RetentionCat` inherits.
unfoldable pub category_days : Option Period → ℤ
unfolding days
category_days none = inherit
category_days (some p) = days p

pub data Choice : Type 0 where
  host_typed port_typed user_typed pass_typed from_typed url_typed : Text → Choice
  tls_toggled root_toggled privileged_toggled : Choice
  severity_chosen : Severity → Choice
  scanner_chosen : Scanner → Choice
  retention_chosen : Period → Choice
  cve_chosen notif_chosen secaudit_chosen seclogs_chosen : Option Period → Choice

unfoldable pub choose : Form → Choice → Form
choose f (host_typed s) = record f { smtp_host = s }
choose f (port_typed s) = record f { smtp_port = s }
choose f (user_typed s) = record f { smtp_user = s }
choose f (pass_typed s) = record f { smtp_pass = s }
choose f (from_typed s) = record f { smtp_from = s }
choose f (url_typed s) = record f { base_url = s }
choose f tls_toggled = record f { smtp_tls = not f.smtp_tls }
choose f root_toggled = record f { allow_root = not f.allow_root }
choose f privileged_toggled = record f { allow_privileged = not f.allow_privileged }
choose f (severity_chosen s) = record f { severity = severity_value s }
choose f (scanner_chosen s) = record f { scanner = scanner_value s }
choose f (retention_chosen p) = record f { ret = days p }
choose f (cve_chosen p) = record f { ret_cve = category_days p }
choose f (notif_chosen p) = record f { ret_notif = category_days p }
choose f (secaudit_chosen p) = record f { ret_secaudit = category_days p }
choose f (seclogs_chosen p) = record f { ret_seclogs = category_days p }

unfoldable pub choose_all : Form → List Choice → Form
choose_all f [] = f
choose_all f (c ∷ cs) = choose_all (choose f c) cs
