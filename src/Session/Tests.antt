-- ===== src/Session/Tests.antt =====
-- A run of the shared calls.
use safe_dock.Common.{ℕ, Text}
use safe_dock.Session.{Parsed, parsed}

abbrev unavailable : ℕ
unavailable = 503

-- A reader that takes every text as it stands.
abbrev verbatim : Text → Parsed Text
verbatim s = parsed s
