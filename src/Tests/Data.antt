-- ===== src/Tests/Data.antt =====
-- Users, drafts and databases for the examples.
use koranco.Base.{false, none, some, List, [], ◌∷◌, ok, err, api_error}
use koranco.Dexie.Memory.{memory}
use koranco.Types.Server.{
  AuthenticatedUser, supervisor, AttendanceSession, SessionStatus, HarvestRecord, kilograms,
  DraftEntry, present,
}
use koranco.Types.Local.{
  LocalAttendanceDraft, OutboxOperation, LocalHarvestDraft, HarvestOutboxOperation,
  HarvestDraftValues, OfflineLease,
}
use koranco.Offline.Db.{Db}
use koranco.Offline.Lease.{lease_of}
use koranco.Offline.Attendance as A
use koranco.Offline.Harvest as H
use koranco.Sync.Answers.{Answer, SyncResult}

abbrev pub ana : AuthenticatedUser
ana = record {
  id = "ana";
  login_identifier = "ana@farm";
  display_name = "Ana";
  permissions = "attendance.record" ∷ "harvest.record" ∷ [];
  role = supervisor;
  password_change_required = false;
}

abbrev pub empty : Db
empty = record {
  workers = [];
  drafts = [];
  outbox = [];
  leases = [];
  harvest_farm_units = [];
  harvest_drafts = [];
  harvest_outbox = [];
}

abbrev pub lease : OfflineLease
lease = lease_of ana 1000

abbrev pub draft_1 : LocalAttendanceDraft
draft_1 = A.new_draft "ana" "2026-01-02" "s1" 2000

abbrev pub entries : List DraftEntry
entries =
    record {
      worker_id = "w1";
      attendance_status = some present;
      time_in = some "07:00";
      time_out = none;
    }
    ∷ []

abbrev pub op_1 : OutboxOperation
op_1 = A.new_operation "ana" "s1" "op1" draft_1 3000

-- Ana has a lease and an open attendance draft.
abbrev pub editing_db : Db
editing_db = record empty { leases = lease ∷ []; drafts = draft_1 ∷ [] }

-- The draft is queued.
abbrev pub queued_db : Db
queued_db = record empty {
  leases = lease ∷ [];
  drafts = A.waiting_draft 3000 draft_1 ∷ [];
  outbox = op_1 ∷ [];
}

abbrev pub session_1 : AttendanceSession
session_1 = record {
  id = "s1";
  attendance_date = "2026-01-02";
  status = SessionStatus.draft;
  version = 2;
  created_by = "ana";
  created_by_name = "Ana";
  created_at = 2000;
  updated_at = 2500;
  submitted_by = none;
  submitted_by_name = none;
  submitted_at = none;
  present_count = 0;
  absent_count = 0;
  unmarked_count = 0;
  entries = [];
}

abbrev pub values : HarvestDraftValues
values = record {
  harvest_date = "2026-01-02";
  farm_unit_id = "block-7";
  quantity = "120.5";
  unit = kilograms;
  notes = some "dry";
}

abbrev pub harvest_1 : LocalHarvestDraft
harvest_1 = H.edited values 2000 (H.new_draft "ana" "h1" 2000)

abbrev pub harvest_op_1 : HarvestOutboxOperation
harvest_op_1 = H.new_operation "ana" "h1" "op2" harvest_1 3000

abbrev pub harvest_editing_db : Db
harvest_editing_db = record empty { leases = lease ∷ []; harvest_drafts = harvest_1 ∷ [] }

abbrev pub harvest_queued_db : Db
harvest_queued_db = record empty {
  leases = lease ∷ [];
  harvest_drafts = H.waiting_draft 3000 harvest_1 ∷ [];
  harvest_outbox = harvest_op_1 ∷ [];
}

-- A server that confirms what it is sent, and one that has no network.
abbrev pub confirming : OutboxOperation → Answer AttendanceSession
confirming o = record {
  reply = ok (record {
    operation_id = o.operation_id;
    result = SyncResult.applied;
    message = "Applied";
    accepted = none;
  });
  at = 4000;
}

abbrev pub unreachable : OutboxOperation → Answer AttendanceSession
unreachable o = record { reply = err (api_error "Bad gateway" 502); at = 4000 }

abbrev pub harvest_confirming : HarvestOutboxOperation → Answer HarvestRecord
harvest_confirming o = record {
  reply = ok (record {
    operation_id = o.operation_id;
    result = SyncResult.already_applied;
    message = "Applied before";
    accepted = none;
  });
  at = 4000;
}

abbrev pub harvest_unreachable : HarvestOutboxOperation → Answer HarvestRecord
harvest_unreachable o = record { reply = err (api_error "Bad gateway" 502); at = 4000 }
