-- ===== src/Offline.antt =====
-- The offline stores of modules/attendance/offline/db.ts and the two sync engines over them. A
-- function takes what the source reads from outside (the time, a random UUID, the server's answer)
-- as an argument, and returns its result beside the database that it leaves.
pub mod Db
pub mod Lease
pub mod Reference
pub mod Attendance
pub mod Harvest
pub mod Pending
