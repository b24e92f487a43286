-- ===== src/Tests/Offline.antt =====
-- Examples for the local stores.
use koranco.Base.{◌≡◌, refl, true, none, some, ok, err, ◌<◌}
use koranco.Dexie.Memory.{memory}
use koranco.Types.Local.{OutboxOperation, LocalAttendanceDraft}
use koranco.Offline.Db.{lease_key, operation_key, draft_key, Db}
use koranco.Offline.Lease.{attendance, valid_offline_lease, lease_of, includes, allowed}
use koranco.Offline.Lease.Validity.{valid_offline_lease_sound}
use koranco.Offline.Attendance as A
use koranco.Offline.Attendance.Queueing as Q
use koranco.Offline.Attendance.Stale.{requeue_stale}
use koranco.Types.Server.{Worker, active}
use koranco.Calendar.{iso_day}
use koranco.Tests.Data.{lease, draft_1, entries, op_1, editing_db, queued_db, session_1}

licensed_2000 : valid_offline_lease (some "ana") attendance 2000 editing_db ≡ some lease
unfolding valid_offline_lease lease_of includes A.new_draft
licensed_2000 = refl

valid_offline_lease_sound_example :
    (memory.get {key = lease_key} "ana" editing_db.leases ≡ some lease)
    × ((2000 < lease.expires_at) × (allowed attendance lease ≡ true))
unfolding lease_of
valid_offline_lease_sound_example =
    valid_offline_lease_sound (some "ana") attendance 2000 editing_db lease licensed_2000

queue_submission_twice_example :
    A.queue_submission "ana" "s1" "op9" 3000 (A.queue_submission "ana" "s1" "op1" 2000 editing_db).1
    ≡ A.queue_submission "ana" "s1" "op1" 2000 editing_db
unfolding valid_offline_lease lease_of includes A.new_draft
queue_submission_twice_example =
    Q.queue_submission_twice "ana" "s1" "op1" "op9" 2000 3000 editing_db lease lease draft_1 refl
      refl refl refl refl refl

queue_submission-save_local_draft_example :
    (o : OutboxOperation) × (db' : Db) × (A.queue_submission "ana" "s1" "op1" 3000
        (A.save_local_draft "ana" "s1" entries 2500 editing_db).1
      ≡ (ok o, db'))
    × (o.payload.entries ≡ entries)
    × (o.payload.attendance_date ≡ "2026-01-02")
    × (o.payload.base_server_version ≡ none)
    × (memory.get {key = operation_key} "op1" db'.outbox ≡ some o)
    × (memory.get {key = draft_key} "s1" db'.drafts
        ≡ some (A.waiting_draft 3000 (Q.edited entries 2500 draft_1)))
unfolding valid_offline_lease lease_of includes A.new_draft
queue_submission-save_local_draft_example =
    Q.queue_submission-save_local_draft "ana" "s1" "op1" entries 2500 3000 editing_db lease lease
      draft_1 refl refl refl refl refl refl refl

save_local_draft-queue_submission_example :
    A.save_local_draft "ana" "s1" entries 4000
      (A.queue_submission "ana" "s1" "op1" 3000 editing_db).1
    ≡ (err A.not_editable, (A.queue_submission "ana" "s1" "op1" 3000 editing_db).1)
unfolding valid_offline_lease lease_of includes A.new_draft
save_local_draft-queue_submission_example =
    Q.save_local_draft-queue_submission "ana" "s1" "op1" entries 3000 4000 editing_db lease lease
      draft_1 refl refl refl refl refl refl

requeue_stale_example :
    (d' : LocalAttendanceDraft) × (db' : Db) × (A.save_local_draft "ana" "s1" entries 5000
        (A.cache_server_draft "ana" session_1 4000 queued_db).1
      ≡ (ok d', db'))
    × (d'.entries ≡ entries)
    × (A.queue_submission "ana" "s1" "op2" 6000 db' ≡ (ok op_1, db'))
unfolding valid_offline_lease lease_of includes A.new_draft A.waiting_draft A.new_operation
requeue_stale_example =
    requeue_stale "ana" "op2" session_1 entries 4000 5000 6000 queued_db lease lease
      (A.waiting_draft 3000 draft_1) op_1 refl refl refl refl refl refl

abbrev pedro : Worker
pedro = record {
  id = "w1";
  worker_code = "W-1";
  full_name = "Pedro";
  status = active;
  created_at = 0;
  updated_at = 0;
}

-- The days of instants: the first, a leap day, the last of a century's leap year, and one of today's.
days_of_instants :
    (iso_day 0 ≡ "1970-01-01")
    × (iso_day 11_016 ≡ "2000-02-29")
    × (iso_day 11_322 ≡ "2000-12-31")
    × (iso_day 20_455 ≡ "2026-01-02")
unfolding iso_day
days_of_instants = (refl, refl, refl, refl)
