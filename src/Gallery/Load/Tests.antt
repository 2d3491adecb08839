-- ===== src/Gallery/Load/Tests.antt =====
-- The small gallery, closed and started again.
