-- ===== src/Settings/Mail.antt =====
-- The test of the SMTP server: `testSmtp` of internal/web/frontend/src/components/SettingsView.jsx and
-- the settings that `HandleTestEmail` of internal/api/testemail.go gives to its notifier. The account
-- is taken to be an admin with an address, and the body to have 4 KB at most; the sending is not
-- modelled, and its outcome is the answer.
pub mod Agreement
use safe_dock.Common.{
  ℕ, zero, suc, [], ◌++◌, Bool, true, false, not, Option, none, some, Text, codes, is_empty,
  if◌then◌else◌,
}
use safe_dock.Common.Int.{ℤ, pos, negsuc}
use safe_dock.Http.{or_text, server_error}
use safe_dock.Settings.{Form, port_of}
use safe_dock.Settings.Server.{Smtp, Strings, fits_int}

pub record TestBody : Type 0 where
  pub smtp_host : Text
  pub smtp_port : Option ℤ
  pub smtp_user : Text
  pub smtp_password : Text
  pub smtp_from : Text
  pub smtp_tls_skip_verify : Bool

unfoldable pub test_body : Form → TestBody
test_body f = record {
  smtp_host = f.smtp_host;
  smtp_port = port_of f.smtp_port;
  smtp_user = f.smtp_user;
  smtp_password = f.smtp_pass;
  smtp_from = f.smtp_from;
  smtp_tls_skip_verify = f.smtp_tls;
}

-- `smtpTest`
pub data TestMessage : Type 0 where
  silent : TestMessage
  info ok error : Text → TestMessage

pub record Tester : Type 0 where
  pub smtp_testing : Bool
  pub smtp_test : TestMessage

abbrev pub untested : Tester
untested = record { smtp_testing = false; smtp_test = silent }

-- A test ends with the address that it was sent to, with a status and perhaps an error, or rejected.
pub data Outcome : Type 0 where
  sent_to : Text → Outcome
  refused : ℕ → Text → Outcome
  failed : Text → Outcome

-- The button is disabled while a test runs.
unfoldable pub press : Form → Tester → Tester × Option TestBody
unfolding test_body
press f t = if t.smtp_testing then (t, none) else (
  record { smtp_testing = true; smtp_test = info (codes "Envoi du test en cours…") },
  some (test_body f),
)

unfoldable pub report : Outcome → TestMessage
unfolding server_error
report (sent_to address) = ok (
    codes "E-mail de test envoyé à "
    ++ (or_text address (codes "votre adresse") ++ codes ". Vérifiez votre boîte (et les spams)."))
report (refused status e) =
    error (or_text (or_text e (server_error status)) (codes "Échec de l'envoi."))
report (failed message) = error (or_text message (codes "Échec de l'envoi."))

unfoldable pub on_tested : Outcome → Tester → Tester
on_tested o t = record { smtp_testing = false; smtp_test = report o }

-- A number that does not fit is skipped by the decoder, and `null` too.
unfoldable pub test_port : Option ℤ → ℤ
unfolding fits_int
test_port none = pos 0
test_port (some n) = if fits_int n then n else pos 0

abbrev or_stored : ℤ → ℤ → ℤ
or_stored (pos zero) old = old
or_stored (pos (suc n)) old = pos (suc n)
or_stored (negsuc n) old = negsuc n

-- The settings that are tested: `s.cfg.SMTP`, with the values of the form that are not blank.
unfoldable pub test_config : Strings → TestBody → Smtp → Smtp
test_config go b cfg = record {
  host = or_text (go.trim_space b.smtp_host) cfg.host;
  port = or_stored (test_port b.smtp_port) cfg.port;
  user = or_text (go.trim_space b.smtp_user) cfg.user;
  password = or_text b.smtp_password cfg.password;
  from = or_text (go.trim_space b.smtp_from) cfg.from;
  tls_skip_verify = b.smtp_tls_skip_verify;
}

-- Whether a mail is sent at all.
unfoldable pub has_host : Strings → Smtp → Bool
has_host go cfg = not (is_empty (go.trim_space cfg.host))
