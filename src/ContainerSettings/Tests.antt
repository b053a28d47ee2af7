-- ===== src/ContainerSettings/Tests.antt =====
-- A permissive override, opened.
use safe_dock.Common.{true, false, none, some, [], codes}
use safe_dock.Cockpit.Overrides.{Override}
use safe_dock.ContainerSettings.{View, fill}

abbrev permissive : Override
permissive = record {
  max_severity_allowed = codes "CRITICAL";
  allow_root = some true;
  allow_privileged = none;
  scanner = codes "grype";
}

abbrev before : View
before = record { form = fill none; status = []; has_override = false }
