-- ===== src/Report/Tests.antt =====
-- Runs of the report over the small fleet.
use safe_dock.Common.{◌≡◌, none, some, codes}
use safe_dock.Report.{esc}
use safe_dock.Report.Escaping.{read_html, read_html-esc}

read_html-esc_example : read_html none (esc (codes "<b>&amp;\"")) ≡ some (codes "<b>&amp;\"")
read_html-esc_example = read_html-esc (codes "<b>&amp;\"")
