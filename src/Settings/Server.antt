-- ===== src/Settings/Server.antt =====
-- `handleGetConfig` and `handlePostConfig` of internal/api/handlers.go, with `SaveSettings` and
-- `SetRetentionConfig` of internal/db/db.go. The database is taken to be there and to work, and the row
-- of the settings to exist; a password is kept in clear here. `strings` is a parameter.
use safe_dock.Common.{
  ◌^◌, ◌≡◌, [], ◌∷◌, Bool, true, false, not, ◌&&◌, ◌||◌, Option, none, some, Text, codes, is_empty,
  text_eq, ltb, ◌==◌, leb, if◌then◌else◌, All,
}
use safe_dock.Common.Int.{ℤ, pos, negsuc}
use safe_dock.Settings.{Config, Body}

-- `SMTPConfig`
pub record Smtp : Type 0 where
  pub host : Text
  pub port : ℤ
  pub user : Text
  pub password : Text
  pub from : Text
  pub tls_skip_verify : Bool

-- `SecOpsConfig`
pub record SecOps : Type 0 where
  pub max_severity_allowed : Text
  pub allow_root : Bool
  pub allow_privileged : Bool
  pub secops_scanner : Text

-- `RetentionConfig`
pub record RetentionConfig : Type 0 where
  pub default : ℤ
  pub cve : ℤ
  pub notifications : ℤ
  pub security_audit : ℤ
  pub audit_logs : ℤ

-- The row of the settings.
pub record Row : Type 0 where
  pub smtp : Smtp
  pub secops : SecOps
  pub retention : RetentionConfig
  pub base_url : Text

-- The row, and `s.cfg`, which is read from it by `ReloadConfig`.
pub record Server : Type 0 where
  pub row : Row
  pub smtp : Smtp
  pub secops : SecOps

-- What is used of Go's package strings.
pub record Strings : Type 0 where
  pub to_upper : Text → Text
  pub to_lower : Text → Text
  pub trim_space : Text → Text
  -- A text of the letters A to Z is its own upper case, one of the letters a to z its own lower case.
  pub to_upper_upper : (s : Text) → All (λ c. (leb 65 c && leb c 90) ≡ true) s → to_upper s ≡ s
  pub to_lower_lower : (s : Text) → All (λ c. (leb 97 c && leb c 122) ≡ true) s → to_lower s ≡ s

unfoldable pub get_config : Server → Config
get_config s = record {
  host = s.smtp.host;
  port = some s.smtp.port;
  user = s.smtp.user;
  from = s.smtp.from;
  tls_skip_verify = s.smtp.tls_skip_verify;
  max_severity_allowed = s.secops.max_severity_allowed;
  allow_root = s.secops.allow_root;
  allow_privileged = s.secops.allow_privileged;
  secops_scanner = s.secops.secops_scanner;
  retention_days = some s.row.retention.default;
  retention = record {
    default = some s.row.retention.default;
    cve = some s.row.retention.cve;
    notifications = some s.row.retention.notifications;
    security_audit = some s.row.retention.security_audit;
    audit_logs = some s.row.retention.audit_logs;
  };
  base_url = s.row.base_url;
}

-- A number that decodes into an `int`.
unfoldable pub fits_int : ℤ → Bool
fits_int (pos n) = ltb n (2 ^ 63)
fits_int (negsuc n) = ltb n (2 ^ 63)

-- `null` leaves 0.
unfoldable pub decode_port : Option ℤ → Option ℤ
unfolding fits_int
decode_port none = some (pos 0)
decode_port (some n) = if fits_int n then some n else none

unfoldable pub is_severity : Text → Bool
is_severity s =
    text_eq s (codes "LOW")
    || text_eq s (codes "MEDIUM")
    || text_eq s (codes "HIGH")
    || text_eq s (codes "CRITICAL")
    || text_eq s (codes "NONE")

unfoldable pub is_scanner : Text → Bool
is_scanner s = text_eq s (codes "trivy") || text_eq s (codes "grype") || text_eq s (codes "hybrid")

-- `validDefault`
unfoldable pub is_default : ℤ → Bool
is_default (pos n) = n == 0 || n == 30 || n == 90 || n == 180 || n == 365
is_default (negsuc n) = false

-- `validCat`
unfoldable pub is_category : ℤ → Bool
unfolding is_default
is_category (pos n) = is_default (pos n)
is_category (negsuc n) = n == 0

abbrev pub has_prefix : Text → Text → Bool
has_prefix [] s = true
has_prefix (p ∷ ps) [] = false
has_prefix (p ∷ ps) (c ∷ s) = p == c && has_prefix ps s

unfoldable pub is_base_url : Text → Bool
is_base_url u = is_empty u || has_prefix (codes "http://") u || has_prefix (codes "https://") u

-- `SaveSettings`: an empty password keeps the one that is stored.
unfoldable pub save_settings : Smtp → SecOps → Row → Row
save_settings smtp secops r = record r {
  smtp = record smtp {
    password = if is_empty smtp.password then r.smtp.password else smtp.password;
  };
  secops = secops;
}

unfoldable pub are_valid : RetentionConfig → Bool
unfolding is_default is_category
are_valid rc =
    is_default rc.default
    && is_category rc.cve
    && is_category rc.notifications
    && is_category rc.security_audit
    && is_category rc.audit_logs

abbrev pub no_less_than_inherit : ℤ → ℤ
no_less_than_inherit (pos n) = pos n
no_less_than_inherit (negsuc n) = negsuc 0

abbrev pub no_less_than_zero : ℤ → ℤ
no_less_than_zero (pos n) = pos n
no_less_than_zero (negsuc n) = pos 0

-- `SetRetentionConfig`
unfoldable pub set_retention_config : RetentionConfig → Row → Row
set_retention_config rc r = record r {
  retention = record {
    default = no_less_than_zero rc.default;
    cve = no_less_than_inherit rc.cve;
    notifications = no_less_than_inherit rc.notifications;
    security_audit = no_less_than_inherit rc.security_audit;
    audit_logs = no_less_than_inherit rc.audit_logs;
  };
}

-- `ReloadConfig`
unfoldable pub reload : Row → Server
reload r = record { row = r; smtp = r.smtp; secops = r.secops }

module _ (go : Strings) where
  unfoldable pub set_base_url : Text → Row → Row
  set_base_url u r =
      let bu = go.trim_space u in if is_base_url bu then record r { base_url = bu } else r

  -- Behind the decoding of the port: the server, and whether the request is accepted.
  unfoldable pub post_decoded : ℤ → Body → Server → Server × Bool
  post_decoded port b s =
      let severity = go.to_upper b.max_severity_allowed in
      let scanner = go.to_lower b.scanner in
      let rc : RetentionConfig = record {
        default = b.default;
        cve = b.cve;
        notifications = b.notifications;
        security_audit = b.security_audit;
        audit_logs = b.audit_logs;
      } in
      let saved =
        save_settings
          (record {
            host = b.smtp_host;
            port = port;
            user = b.smtp_user;
            password = b.smtp_password;
            from = b.smtp_from;
            tls_skip_verify = b.smtp_tls_skip_verify;
          })
          (record {
            max_severity_allowed = severity;
            allow_root = b.allow_root;
            allow_privileged = b.allow_privileged;
            secops_scanner = if is_scanner scanner then scanner else codes "trivy";
          })
          s.row in
      if not (is_severity severity)
      then (s, false)
      else (if not (are_valid rc)
          then (record s { row = saved }, false)
          else (reload (set_base_url b.base_url (set_retention_config rc saved)), true))

  unfoldable pub post_port : Option ℤ → Body → Server → Server × Bool
  post_port none b s = (s, false)
  post_port (some port) b s = post_decoded port b s

  -- `handlePostConfig`
  unfoldable pub post_config : Body → Server → Server × Bool
  post_config b s = post_port (decode_port b.smtp_port) b s
