-- ===== src/Tests.antt =====
-- The theorems at concrete inputs, on the store in memory.
pub mod Data
mod Offline
mod Sync
mod Device
mod Session
mod SignOut
mod HarvestPage
mod Workspace
mod Details
mod Reports
mod RecordLists
mod Registers
mod Background
