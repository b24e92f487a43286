-- ===== src/Offline/Db.antt =====
-- The database of modules/attendance/offline/db.ts: one store for each kind of row.
use koranco.Base.{ℕ, ◌*◌, String}
use koranco.Dexie.{Dexie}
use koranco.Types.Local.{
  CachedWorker, LocalAttendanceDraft, OutboxOperation, OfflineLease, CachedFarmUnit,
  LocalHarvestDraft, HarvestOutboxOperation,
}

-- Twelve hours.
abbrev pub offline_lease_ms : ℕ
offline_lease_ms = 12 * 60 * 60 * 1000

abbrev pub sync_payload_version : ℕ
sync_payload_version = 1

abbrev pub harvest_payload_version : ℕ
harvest_payload_version = 1

abbrev pub worker_key : CachedWorker → String
worker_key r = r.key

abbrev pub draft_key : LocalAttendanceDraft → String
draft_key r = r.id

abbrev pub operation_key : OutboxOperation → String
operation_key r = r.operation_id

abbrev pub lease_key : OfflineLease → String
lease_key r = r.owner_id

abbrev pub farm_unit_key : CachedFarmUnit → String
farm_unit_key r = r.key

abbrev pub harvest_draft_key : LocalHarvestDraft → String
harvest_draft_key r = r.id

abbrev pub harvest_operation_key : HarvestOutboxOperation → String
harvest_operation_key r = r.operation_id

module _ ⦃dexie : Dexie⦄ where
  open dexie use {Table}

  -- `FieldOfflineDatabase`
  pub record Db : Type 0 where
    pub workers : Table CachedWorker worker_key
    pub drafts : Table LocalAttendanceDraft draft_key
    pub outbox : Table OutboxOperation operation_key
    pub leases : Table OfflineLease lease_key
    pub harvest_farm_units : Table CachedFarmUnit farm_unit_key
    pub harvest_drafts : Table LocalHarvestDraft harvest_draft_key
    pub harvest_outbox : Table HarvestOutboxOperation harvest_operation_key
