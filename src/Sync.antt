-- ===== src/Sync.antt =====
-- The two sync engines, modules/attendance/offline/sync.ts and modules/harvest/offline/sync.ts: each
-- drives the owner's queued operations to the server and maps the answers onto the local rows.
pub mod Answers
pub mod Attendance
pub mod Harvest
pub mod Lockstep
