-- ===== src/Cockpit/Tests.antt =====
-- Runs of the cockpit.
use safe_dock.Common.{◌≡◌, true, none, some, codes}
use safe_dock.Cockpit.Overrides.{Override, payload, decoded, no_override, decoded-payload}

abbrev strict : Override
strict = record {
  max_severity_allowed = codes "LOW";
  allow_root = some true;
  allow_privileged = none;
  scanner = codes "grype";
}

decoded-payload_example : decoded (payload (codes "web") strict) ≡ (codes "web", no_override)
decoded-payload_example = decoded-payload (codes "web") strict
