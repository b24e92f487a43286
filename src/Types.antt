-- ===== src/Types.antt =====
-- The data of the API and of the local stores: the types of modules/attendance/api.ts,
-- modules/harvest/api.ts, modules/workers/api.ts, modules/farm-structure/api.ts, lib/api/auth.ts and
-- modules/attendance/offline/db.ts (all under apps/web/src).
-- An instant, in the source an ISO text made by `toISOString`, is its number of milliseconds since
-- 1970: the two are in bijection, and ISO texts are ordered as their instants are.
pub mod Json
pub mod Server
pub mod Local
