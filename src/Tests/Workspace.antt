-- ===== src/Tests/Workspace.antt =====
-- Examples for the page of one attendance session and for the paging loops.
use koranco.Base.{
  ℕ, String, ◌≡◌, ◌↔◌, refl, true, false, Bool, none, some, Option, List, [], ◌∷◌, ok, err, Result,
  error, Has, inl, length, arith, take, drop,
}
use koranco.Dexie.Memory.{memory}
use koranco.Types.Server.{
  AttendanceSession, Worker, FarmUnit, active, AttendanceStatus, present, absent, field, block,
}
use koranco.Types.Local.{LocalDraftState, OutboxState, OutboxOperation, CachedWorker}
use koranco.Offline.Db.{Db, operation_key}
use koranco.Offline.Lease.{valid_offline_lease, lease_of, includes}
use koranco.Offline.Attendance as A
use koranco.Sync.Attendance as SA
use koranco.Sync.Attendance.Keeps.{confirmed}
use koranco.Client.{Fetched, response, api_request}
use koranco.Workspace.Roster.{RosterItem, has_item, offline_roster, entries_of}
use koranco.Workspace.Roster.Reload.{Restored, offline_roster-entries_of}
use koranco.Workspace.State.{WorkspaceState}
use koranco.Workspace.Attendance.{save, submit, sync_now}
use koranco.Device.OnBehalf.{ByUser}
use koranco.Workspace.Attendance.Refines.{handlers-ByUser}
use koranco.Workspace.Attendance.Honest.{submit-synced, sync_now_unsent}
use koranco.Paging.{Page, active_workers_for_roster, active_farm_units_for_offline}
use koranco.Paging.Complete.{active_workers_for_roster_ends, collected_whole}
use koranco.Tests.Data.{ana, editing_db, queued_db, op_1, session_1, confirming, unreachable}

abbrev item : String → Bool → Option AttendanceStatus → RosterItem
item id on status = record {
  worker_id = id;
  worker_code = id;
  worker_name = id;
  worker_active = true;
  included = on;
  attendance_status = status;
  time_in = "07:05:30";
  time_out = "";
  entry_id = none;
  version = none;
  corrected_at = none;
}

abbrev roster_1 : List RosterItem
roster_1 = item "w1" true (some present) ∷ item "w2" true none ∷ item "w3" false (some absent) ∷ []

abbrev cached_1 : CachedWorker
cached_1 = record {
  key = "ana:w1";
  owner_id = "ana";
  id = "w1";
  worker_code = "W-1";
  full_name = "Worker";
  active = true;
  fetched_at = 1000;
}

abbrev page : WorkspaceState
page = record {
  user = some ana;
  session = some session_1;
  roster = roster_1;
  dirty = false;
  saving = false;
  review = true;
  error_text = "";
  success = "";
  local_state = LocalDraftState.editing;
}

offline_roster-entries_of_example :
    (x : RosterItem) × Has x (offline_roster (cached_1 ∷ []) (entries_of roster_1))
    × Restored (item "w1" true (some present)) x
unfolding has_item
offline_roster-entries_of_example =
    offline_roster-entries_of (cached_1 ∷ []) cached_1 roster_1 (item "w1" true (some present))
      (refl, (refl, (refl, tt))) (inl refl) (inl refl) refl

handlers-ByUser_example :
    ByUser "ana" editing_db (save "taken" 3000 page editing_db).2
    × ByUser "ana" editing_db
        (submit "taken" true unreachable (err (error "offline")) "op1" 3000 page editing_db).1
    × ByUser "ana" editing_db (sync_now unreachable (err (error "offline")) page editing_db).2
handlers-ByUser_example =
    handlers-ByUser "taken" true unreachable (err (error "offline")) "op1" 3000 ana page editing_db
      refl

submit-synced_example :
    ((submit "taken" true confirming (ok (some session_1)) "op1" 3000 page editing_db).0.local_state
      ≡ LocalDraftState.synced)
    ↔ (((x : OutboxOperation) → Has x (SA.queue "ana" queued_db) → confirmed confirming x ≡ true)
        × ((a : AttendanceSession) × (ok (some session_1) ≡ ok (some a))))
unfolding A.queue_submission valid_offline_lease lease_of includes A.new_draft A.new_operation
    A.waiting_draft
submit-synced_example =
    submit-synced "taken" confirming (ok (some session_1)) "op1" 3000 ana session_1 page editing_db
      queued_db op_1 refl refl refl refl

-- The operation needs attention.
abbrev refused : OutboxOperation
refused = record op_1 { state = OutboxState.needs_attention }

abbrev attention_db : Db
attention_db = record queued_db { outbox = refused ∷ [] }

sync_now_unsent_example :
    ((sync_now confirming (ok (some session_1)) page attention_db).1.local_state
      ≡ LocalDraftState.synced)
    × (memory.get {key = operation_key} "op1"
          (sync_now confirming (ok (some session_1)) page attention_db).2.outbox
        ≡ some refused)
unfolding A.new_operation SA.verdict
sync_now_unsent_example =
    sync_now_unsent confirming ana session_1 page attention_db "op1" refused refl refl refl
      (λ x m. refl)

abbrev worker : String → Worker
worker id = record {
  id = id;
  worker_code = id;
  full_name = id;
  status = active;
  created_at = 0;
  updated_at = 0;
}

abbrev three : List Worker
three = worker "w1" ∷ worker "w2" ∷ worker "w3" ∷ []

abbrev two_units : List FarmUnit
two_units =
    record {
      id = "u1";
      code = "F1";
      name = "Field";
      unit_type = field;
      parent_id = none;
      status = active;
      created_at = 0;
      updated_at = 0;
    }
    ∷ record {
      id = "u2";
      code = "B1";
      name = "Block";
      unit_type = block;
      parent_id = some "u1";
      status = active;
      created_at = 0;
      updated_at = 0;
    }
    ∷ []

-- A server that sends pages of two.
abbrev paged : {A : Type 0} → List A → ℕ → Fetched (Page A)
paged rows offset = response (record {
  status = 200;
  json = some (record { items = take 2 (drop offset rows); total = length rows });
  error_message = none;
})

-- A server that claims five workers and sends none.
abbrev empty_pages : ℕ → Fetched (Page Worker)
empty_pages offset =
    response (record {
      status = 200;
      json = some (record { items = []; total = 5 });
      error_message = none;
    })

active_workers_for_roster_ends_example :
    (r : Result (List Worker)) × (active_workers_for_roster 6 empty_pages ≡ some r)
unfolding api_request
active_workers_for_roster_ends_example =
    active_workers_for_roster_ends empty_pages 5 (λ offset p h. ground (arith, h))

collected_whole_example :
    (active_workers_for_roster 4 (paged three) ≡ some (ok three))
    × (active_farm_units_for_offline 3 (paged two_units) ≡ some (ok two_units))
unfolding api_request
collected_whole_example =
    collected_whole (paged three) (paged two_units) 2 three two_units (omega arith)
      (λ offset. (_, refl, refl, refl)) (λ offset. (_, refl, refl, refl))
