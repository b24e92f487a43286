-- ===== src/Registers.antt =====
-- The pages of the registers: modules/workers/worker-register.tsx,
-- modules/farm-structure/farm-structure-register.tsx and components/admin/users-admin.tsx.
pub mod Service
pub mod Users
pub mod Workers
pub mod FarmStructure
pub mod Actions
pub mod Honest
