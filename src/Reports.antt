-- ===== src/Reports.antt =====
-- The reports, modules/reports.
pub mod Series
pub mod Pages
