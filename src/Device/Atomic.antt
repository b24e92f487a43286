-- ===== src/Device/Atomic.antt =====
-- A call that throws has written nothing.
use koranco.Base.{◌≡◌, Option, none, some, arith, Result, ok, err, Failure}
use koranco.Dexie.{Dexie}
use koranco.Offline.Db.{Db}
use koranco.Offline.Attendance as A
use koranco.Offline.Harvest as H
use koranco.Device.{
  Event, step, cache_attendance, create_attendance, save_attendance, queue_attendance,
  cache_harvest, create_harvest, save_harvest, queue_harvest,
}

abbrev pub failure {ℓ} : {A : Type ℓ} → Result A → Option Failure
failure (ok a) = none
failure (err e) = some e

module _ ⦃dexie : Dexie⦄ where
  -- What an event throws; the syncs answer with an outcome and throw nothing.
  abbrev pub thrown : Event → Db → Option Failure
  thrown (cache_attendance owner s now) db = failure (A.cache_server_draft owner s now db).0
  thrown (create_attendance owner date uuid now) db =
      failure (A.create_local_draft owner date uuid now db).0
  thrown (save_attendance owner id entries now) db =
      failure (A.save_local_draft owner id entries now db).0
  thrown (queue_attendance owner id uuid now) db =
      failure (A.queue_submission owner id uuid now db).0
  thrown (cache_harvest owner r now) db = failure (H.cache_server_harvest_draft owner r now db).0
  thrown (create_harvest owner uuid now) db =
      failure (H.create_local_harvest_draft owner uuid now db).0
  thrown (save_harvest owner id values now) db =
      failure (H.save_local_harvest_draft owner id values now db).0
  thrown (queue_harvest owner id uuid now) db =
      failure (H.queue_harvest_submission owner id uuid now db).0
  thrown _ db = none

  -- A call on the local drafts that throws, for whatever reason, leaves the whole database as it was.
  pub step-thrown : (e : Event) (db : Db) (f : Failure) → thrown e db ≡ some f → step e db ≡ db
  unfolding step A.cache_server_draft A.create_local_draft A.save_local_draft A.queue_submission
      H.cache_server_harvest_draft H.create_local_harvest_draft H.save_local_harvest_draft
      H.queue_harvest_submission
  step-thrown (cache_attendance owner s now) db f h = ground arith
  step-thrown _ db f h = ground arith
