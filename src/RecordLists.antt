-- ===== src/RecordLists.antt =====
-- The pages that list attendance sessions and harvest records, from the server and from the device.
pub mod Attendance
pub mod Harvest
pub mod Prepared
pub mod Refines
