-- ===== src/Workspace.antt =====
-- The pages that capture attendance: modules/attendance/attendance-workspace.tsx.
pub mod Roster
pub mod State
pub mod Load
pub mod Attendance
pub mod Details
