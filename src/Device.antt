-- ===== src/Device.antt =====
-- What happens on one device: the calls of the pages and of the sign-in, one after the other, each on
-- behalf of one user.
pub mod Attendance
pub mod Atomic
pub mod Harvest
pub mod Interleaved
pub mod OnBehalf
use koranco.Base.{String, List, [], ◌∷◌}
use koranco.Dexie.{Dexie}
use koranco.Types.Server.{
  Instant, AuthenticatedUser, Worker, FarmUnit, AttendanceSession, DraftEntry, HarvestRecord,
}
use koranco.Types.Local.{OutboxOperation, HarvestOutboxOperation, HarvestDraftValues}
use koranco.Offline.Db.{Db}
use koranco.Offline.Lease
use koranco.Offline.Reference
use koranco.Offline.Attendance as A
use koranco.Offline.Harvest as H
use koranco.Sync.Answers.{Answer}
use koranco.Sync.Attendance as SA
use koranco.Sync.Harvest as SH

pub data Event : Type 0 where
  validate : AuthenticatedUser → Instant → Event
  suspend : (owner : String) → Event
  cache_workers : (owner : String) → List Worker → Instant → Event
  cache_farm_units : (owner : String) → List FarmUnit → Instant → Event
  cache_attendance : (owner : String) → AttendanceSession → Instant → Event
  create_attendance : (owner date uuid : String) → Instant → Event
  save_attendance : (owner id : String) → List DraftEntry → Instant → Event
  queue_attendance : (owner id uuid : String) → Instant → Event
  sync_attendance : (owner : String) → (OutboxOperation → Answer AttendanceSession) → Event
  cache_harvest : (owner : String) → HarvestRecord → Instant → Event
  create_harvest : (owner uuid : String) → Instant → Event
  save_harvest : (owner id : String) → HarvestDraftValues → Instant → Event
  queue_harvest : (owner id uuid : String) → Instant → Event
  sync_harvest : (owner : String) → (HarvestOutboxOperation → Answer HarvestRecord) → Event

-- On whose behalf an event happens.
abbrev pub actor : Event → String
actor (validate user now) = user.id
actor (suspend owner) = owner
actor (cache_workers owner ws now) = owner
actor (cache_farm_units owner us now) = owner
actor (cache_attendance owner s now) = owner
actor (create_attendance owner date uuid now) = owner
actor (save_attendance owner id entries now) = owner
actor (queue_attendance owner id uuid now) = owner
actor (sync_attendance owner server) = owner
actor (cache_harvest owner r now) = owner
actor (create_harvest owner uuid now) = owner
actor (save_harvest owner id values now) = owner
actor (queue_harvest owner id uuid now) = owner
actor (sync_harvest owner server) = owner

module _ ⦃dexie : Dexie⦄ where
  unfoldable pub step : Event → Db → Db
  step (validate user now) db = Lease.record_offline_lease user now db
  step (suspend owner) db = Lease.suspend_offline_lease owner db
  step (cache_workers owner ws now) db = (Reference.cache_workers owner ws now db).1
  step (cache_farm_units owner us now) db = (Reference.cache_farm_units owner us now db).1
  step (cache_attendance owner s now) db = (A.cache_server_draft owner s now db).1
  step (create_attendance owner date uuid now) db = (A.create_local_draft owner date uuid now db).1
  step (save_attendance owner id entries now) db = (A.save_local_draft owner id entries now db).1
  step (queue_attendance owner id uuid now) db = (A.queue_submission owner id uuid now db).1
  step (sync_attendance owner server) db = (SA.sync_attendance server owner db).1
  step (cache_harvest owner r now) db = (H.cache_server_harvest_draft owner r now db).1
  step (create_harvest owner uuid now) db = (H.create_local_harvest_draft owner uuid now db).1
  step (save_harvest owner id values now) db = (H.save_local_harvest_draft owner id values now db).1
  step (queue_harvest owner id uuid now) db = (H.queue_harvest_submission owner id uuid now db).1
  step (sync_harvest owner server) db = (SH.sync_harvest server owner db).1

  unfoldable pub run : List Event → Db → Db
  unfolding step
  run [] db = db
  run (e ∷ es) db = run es (step e db)
