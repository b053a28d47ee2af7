-- ===== src/Dashboard/Tests.antt =====
-- Runs of the dashboard over the small fleet.
