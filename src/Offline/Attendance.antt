-- ===== src/Offline/Attendance.antt =====
-- The attendance functions of modules/attendance/offline/db.ts: drafts and their queued submissions.
pub mod Effects
pub mod Sound
pub mod Queueing
pub mod Stale
use koranco.Base.{
  String, Bool, true, false, not, ◌&&◌, Option, none, some, List, [], map, ◌==◌, truthy,
  if◌then◌else◌, Result, ok, err, Failure, error, constraint_error,
}
use koranco.Dexie.{Dexie}
use koranco.Types.Server.{
  Instant, AttendanceEntry, AttendanceSession, SessionStatus, draft, submitted, DraftEntry,
}
use koranco.Types.Local.{
  LocalDraftState, editing, synced, pending_submission, LocalAttendanceDraft, OutboxOperation,
  submit_snapshot, OutboxState,
}
use koranco.Offline.Db.{Db, sync_payload_version}
use koranco.Offline.Lease.{attendance, valid_offline_lease}

abbrev pub expired_authorization : Failure
expired_authorization = error "Offline attendance authorization has expired"

abbrev pub unavailable : Failure
unavailable = error "Attendance is not available for this user"

abbrev pub not_editable : Failure
not_editable = error "Pending attendance cannot be casually edited"

abbrev pub of_another_user : Failure
of_another_user = error "Attendance belongs to another user"

unfoldable pub draft_entry : AttendanceEntry → DraftEntry
draft_entry e = record {
  worker_id = e.worker_id;
  attendance_status = e.attendance_status;
  time_in = e.time_in;
  time_out = e.time_out;
}

unfoldable pub local_state : SessionStatus → LocalDraftState
local_state submitted = synced
local_state draft = editing

abbrev pub is_editing : LocalDraftState → Bool
is_editing editing = true
is_editing _ = false

abbrev pub created_or : Instant → Option LocalAttendanceDraft → Instant
created_or now none = now
created_or now (some d) = d.created_at

-- `existing?.ownerId && existing.ownerId !== ownerId`
abbrev pub of_other : String → Option LocalAttendanceDraft → Bool
of_other owner none = false
of_other owner (some d) = truthy d.owner_id && not (d.owner_id == owner)

unfoldable pub server_copy :
    String → AttendanceSession → Option LocalAttendanceDraft → Instant → LocalAttendanceDraft
unfolding draft_entry local_state
server_copy owner session existing now = record {
  id = session.id;
  owner_id = owner;
  attendance_date = session.attendance_date;
  server_session_id = some session.id;
  base_server_version = some session.version;
  entries = map draft_entry session.entries;
  state = local_state session.status;
  created_at = created_or now existing;
  updated_at = now;
  payload_version = sync_payload_version;
  last_message = none;
}

unfoldable pub new_draft : String → String → String → Instant → LocalAttendanceDraft
new_draft owner date uuid now = record {
  id = uuid;
  owner_id = owner;
  attendance_date = date;
  server_session_id = none;
  base_server_version = none;
  entries = [];
  state = editing;
  created_at = now;
  updated_at = now;
  payload_version = sync_payload_version;
  last_message = none;
}

unfoldable pub new_operation :
    String → String → String → LocalAttendanceDraft → Instant → OutboxOperation
new_operation owner id uuid d now = record {
  operation_id = uuid;
  owner_id = owner;
  aggregate_id = id;
  sequence = 1;
  operation_type = submit_snapshot;
  state = OutboxState.pending;
  payload = record {
    operation_id = uuid;
    operation_type = submit_snapshot;
    target_session_id = id;
    payload_version = sync_payload_version;
    attendance_date = d.attendance_date;
    base_server_version = d.base_server_version;
    entries = d.entries;
  };
  created_at = now;
  attempt_count = 0;
  last_error_category = none;
  last_message = none;
}

unfoldable pub waiting_draft : Instant → LocalAttendanceDraft → LocalAttendanceDraft
waiting_draft now d = record d {
  state = pending_submission;
  updated_at = now;
  last_message = some "Saved on this device. Waiting to sync.";
}

-- The draft under an id, if it is the owner's.
abbrev pub owned : String → Option LocalAttendanceDraft → Option LocalAttendanceDraft
owned owner none = none
owned owner (some d) = if d.owner_id == owner then some d else none

module _ ⦃dexie : Dexie⦄ where
  unfoldable pub cache_server_draft :
      String → AttendanceSession → Instant → Db → Result LocalAttendanceDraft × Db
  unfolding server_copy
  cache_server_draft owner session now db =
      let existing = dexie.get session.id db.drafts in
      let copy = server_copy owner session existing now in
      if of_other owner existing
      then (err of_another_user, db)
      else (ok copy, record db { drafts = dexie.put copy db.drafts })

  add_draft : LocalAttendanceDraft → Db → Result LocalAttendanceDraft × Db
  add_draft d db = elim (dexie.add d db.drafts) [
    | none ↦ (err constraint_error, db)
    | some t ↦ (ok d, record db { drafts = t })
  ]

  unfoldable pub create_local_draft :
      String → String → (uuid : String) → Instant → Db → Result LocalAttendanceDraft × Db
  unfolding new_draft add_draft
  create_local_draft owner date uuid now db =
      elim (valid_offline_lease (some owner) attendance now db) [
        | none ↦ (err expired_authorization, db)
        | some _ ↦ add_draft (new_draft owner date uuid now) db
      ]

  save_found :
      List DraftEntry
      → Instant
      → Option LocalAttendanceDraft
      → Db
      → Result LocalAttendanceDraft × Db
  save_found entries now none db = (err unavailable, db)
  save_found entries now (some d) db =
      let updated : LocalAttendanceDraft = record d {
        entries = entries;
        updated_at = now;
        last_message = none;
      } in
      if is_editing d.state
      then (ok updated, record db { drafts = dexie.put updated db.drafts })
      else (err not_editable, db)

  unfoldable pub save_local_draft :
      String → String → List DraftEntry → Instant → Db → Result LocalAttendanceDraft × Db
  unfolding save_found
  save_local_draft owner id entries now db =
      elim (valid_offline_lease (some owner) attendance now db) [
        | none ↦ (err expired_authorization, db)
        | some _ ↦ save_found entries now (owned owner (dexie.get id db.drafts)) db
      ]

  -- A rejected `add` aborts the transaction, and nothing is written.
  enqueue :
      String → String → String → Instant → LocalAttendanceDraft → Db → Result OutboxOperation × Db
  unfolding new_operation waiting_draft
  enqueue owner id uuid now d db =
      let operation = new_operation owner id uuid d now in
      elim (dexie.add operation db.outbox) [
        | none ↦ (err constraint_error, db)
        | some t ↦ (
          ok operation,
          record db { outbox = t; drafts = dexie.update id (waiting_draft now) db.drafts },
        )
      ]

  queue_found :
      String
      → String
      → String
      → Instant
      → Option LocalAttendanceDraft
      → Db
      → Result OutboxOperation × Db
  unfolding enqueue
  queue_found owner id uuid now none db = (err unavailable, db)
  queue_found owner id uuid now (some d) db =
      elim (dexie.first (λ o. o.aggregate_id == id) db.outbox) [
        | some existing ↦ (ok existing, db)
        | none ↦ enqueue owner id uuid now d db
      ]

  unfoldable pub queue_submission :
      String → String → (uuid : String) → Instant → Db → Result OutboxOperation × Db
  unfolding queue_found
  queue_submission owner id uuid now db =
      elim (valid_offline_lease (some owner) attendance now db) [
        | none ↦ (err expired_authorization, db)
        | some _ ↦ queue_found owner id uuid now (owned owner (dexie.get id db.drafts)) db
      ]

  unfoldable pub owner_draft : String → String → Db → Option LocalAttendanceDraft
  owner_draft owner id db = owned owner (dexie.get id db.drafts)

  unfoldable pub owner_drafts : String → Db → List LocalAttendanceDraft
  owner_drafts owner db =
      dexie.sort_by_desc (λ d. d.updated_at) (dexie.select (λ d. d.owner_id == owner) db.drafts)
