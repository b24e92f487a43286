-- ===== src/HarvestPage.antt =====
-- The page of one harvest record, modules/harvest/harvest-workspace.tsx.
pub mod State
pub mod Handlers
pub mod Correction
pub mod Load
pub mod Refines
pub mod Form
pub mod Submission
pub mod Reopened
