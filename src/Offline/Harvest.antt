-- ===== src/Offline/Harvest.antt =====
-- The harvest functions of modules/attendance/offline/db.ts: drafts and their queued submissions.
pub mod Effects
pub mod Sound
pub mod Queueing
use koranco.Base.{
  ◌/◌, String, Bool, false, not, ◌&&◌, ◌||◌, Option, none, some, List, ◌==◌, truthy, if◌then◌else◌,
  Result, ok, err, Failure, error, constraint_error,
}
use koranco.Calendar.{iso_day}
use koranco.Dexie.{Dexie}
use koranco.Types.Server.{Instant, HarvestRecord, fruit_count}
use koranco.Types.Local.{
  editing, pending_submission, LocalHarvestDraft, HarvestOutboxOperation, HarvestDraftValues,
  submit_harvest_snapshot, OutboxState,
}
use koranco.Offline.Db.{Db, harvest_payload_version}
use koranco.Offline.Lease.{harvest, valid_offline_lease}
use koranco.Offline.Attendance.{local_state, is_editing}

abbrev pub expired_authorization : Failure
expired_authorization = error "Offline harvest authorization has expired"

abbrev pub unavailable : Failure
unavailable = error "Harvest is not available for this user"

abbrev pub not_editable : Failure
not_editable = error "Pending harvest cannot be casually edited"

abbrev pub incomplete : Failure
incomplete = error "Complete the Harvest record before submitting"

abbrev pub of_another_user : Failure
of_another_user = error "Harvest belongs to another user"

abbrev pub created_or : Instant → Option LocalHarvestDraft → Instant
created_or now none = now
created_or now (some d) = d.created_at

abbrev pub of_other : String → Option LocalHarvestDraft → Bool
of_other owner none = false
of_other owner (some d) = truthy d.owner_id && not (d.owner_id == owner)

unfoldable pub server_copy :
    String → HarvestRecord → Option LocalHarvestDraft → Instant → LocalHarvestDraft
unfolding local_state
server_copy owner r existing now = record {
  id = r.id;
  owner_id = owner;
  harvest_date = r.harvest_date;
  farm_unit_id = r.farm_unit_id;
  quantity = r.quantity;
  unit = r.unit;
  notes = r.notes;
  server_record_id = some r.id;
  base_server_version = some r.version;
  state = local_state r.status;
  created_at = created_or now existing;
  updated_at = now;
  payload_version = harvest_payload_version;
  last_message = none;
}

-- `now.slice(0, 10)` is the day of the instant.
unfoldable pub new_draft : String → String → Instant → LocalHarvestDraft
new_draft owner uuid now = record {
  id = uuid;
  owner_id = owner;
  harvest_date = iso_day (now / 86_400_000);
  farm_unit_id = "";
  quantity = "";
  unit = fruit_count;
  notes = none;
  server_record_id = none;
  base_server_version = none;
  state = editing;
  created_at = now;
  updated_at = now;
  payload_version = harvest_payload_version;
  last_message = none;
}

-- The draft with the values of the form.
unfoldable pub edited : HarvestDraftValues → Instant → LocalHarvestDraft → LocalHarvestDraft
edited v now d = record d {
  harvest_date = v.harvest_date;
  farm_unit_id = v.farm_unit_id;
  quantity = v.quantity;
  unit = v.unit;
  notes = v.notes;
  updated_at = now;
  last_message = none;
}

unfoldable pub new_operation :
    String → String → String → LocalHarvestDraft → Instant → HarvestOutboxOperation
new_operation owner id uuid d now = record {
  operation_id = uuid;
  owner_id = owner;
  aggregate_id = id;
  sequence = 1;
  operation_type = submit_harvest_snapshot;
  state = OutboxState.pending;
  payload = record {
    operation_id = uuid;
    operation_type = submit_harvest_snapshot;
    harvest_record_id = id;
    payload_version = harvest_payload_version;
    harvest_date = d.harvest_date;
    farm_unit_id = d.farm_unit_id;
    quantity = d.quantity;
    unit = d.unit;
    notes = d.notes;
    base_server_version = d.base_server_version;
  };
  created_at = now;
  attempt_count = 0;
  last_error_category = none;
  last_message = none;
}

unfoldable pub waiting_draft : Instant → LocalHarvestDraft → LocalHarvestDraft
waiting_draft now d = record d {
  state = pending_submission;
  updated_at = now;
  last_message = some "Saved on this device. Waiting to sync.";
}

abbrev pub owned : String → Option LocalHarvestDraft → Option LocalHarvestDraft
owned owner none = none
owned owner (some d) = if d.owner_id == owner then some d else none

module _ ⦃dexie : Dexie⦄ where
  unfoldable pub cache_server_harvest_draft :
      String → HarvestRecord → Instant → Db → Result LocalHarvestDraft × Db
  unfolding server_copy
  cache_server_harvest_draft owner r now db =
      let existing = dexie.get r.id db.harvest_drafts in
      let copy = server_copy owner r existing now in
      if of_other owner existing
      then (err of_another_user, db)
      else (ok copy, record db { harvest_drafts = dexie.put copy db.harvest_drafts })

  add_draft : LocalHarvestDraft → Db → Result LocalHarvestDraft × Db
  add_draft d db = elim (dexie.add d db.harvest_drafts) [
    | none ↦ (err constraint_error, db)
    | some t ↦ (ok d, record db { harvest_drafts = t })
  ]

  unfoldable pub create_local_harvest_draft :
      String → (uuid : String) → Instant → Db → Result LocalHarvestDraft × Db
  unfolding new_draft add_draft
  create_local_harvest_draft owner uuid now db =
      elim (valid_offline_lease (some owner) harvest now db) [
        | none ↦ (err expired_authorization, db)
        | some _ ↦ add_draft (new_draft owner uuid now) db
      ]

  save_found :
      HarvestDraftValues → Instant → Option LocalHarvestDraft → Db → Result LocalHarvestDraft × Db
  unfolding edited
  save_found values now none db = (err unavailable, db)
  save_found values now (some d) db =
      if is_editing d.state
      then (
        ok (edited values now d),
        record db { harvest_drafts = dexie.put (edited values now d) db.harvest_drafts },
      )
      else (err not_editable, db)

  unfoldable pub save_local_harvest_draft :
      String → String → HarvestDraftValues → Instant → Db → Result LocalHarvestDraft × Db
  unfolding save_found
  save_local_harvest_draft owner id values now db =
      elim (valid_offline_lease (some owner) harvest now db) [
        | none ↦ (err expired_authorization, db)
        | some _ ↦ save_found values now (owned owner (dexie.get id db.harvest_drafts)) db
      ]

  -- A rejected `add` aborts the transaction, and nothing is written.
  enqueue :
      String
      → String
      → String
      → Instant
      → LocalHarvestDraft
      → Db
      → Result HarvestOutboxOperation × Db
  unfolding new_operation waiting_draft
  enqueue owner id uuid now d db =
      let operation = new_operation owner id uuid d now in
      elim (dexie.add operation db.harvest_outbox) [
        | none ↦ (err constraint_error, db)
        | some t ↦ (
          ok operation,
          record db {
            harvest_outbox = t;
            harvest_drafts = dexie.update id (waiting_draft now) db.harvest_drafts;
          },
        )
      ]

  queue_complete :
      String
      → String
      → String
      → Instant
      → LocalHarvestDraft
      → Db
      → Result HarvestOutboxOperation × Db
  unfolding enqueue
  queue_complete owner id uuid now d db =
      elim (dexie.first (λ o. o.aggregate_id == id && o.owner_id == owner) db.harvest_outbox) [
        | some existing ↦ (ok existing, db)
        | none ↦ enqueue owner id uuid now d db
      ]

  queue_found :
      String
      → String
      → String
      → Instant
      → Option LocalHarvestDraft
      → Db
      → Result HarvestOutboxOperation × Db
  unfolding queue_complete
  queue_found owner id uuid now none db = (err unavailable, db)
  queue_found owner id uuid now (some d) db =
      if not (truthy d.farm_unit_id) || not (truthy d.quantity)
      then (err incomplete, db)
      else queue_complete owner id uuid now d db

  unfoldable pub queue_harvest_submission :
      String → String → (uuid : String) → Instant → Db → Result HarvestOutboxOperation × Db
  unfolding queue_found
  queue_harvest_submission owner id uuid now db =
      elim (valid_offline_lease (some owner) harvest now db) [
        | none ↦ (err expired_authorization, db)
        | some _ ↦ queue_found owner id uuid now (owned owner (dexie.get id db.harvest_drafts)) db
      ]

  unfoldable pub owner_harvest_draft : String → String → Db → Option LocalHarvestDraft
  owner_harvest_draft owner id db = owned owner (dexie.get id db.harvest_drafts)

  unfoldable pub owner_harvest_drafts : String → Db → List LocalHarvestDraft
  owner_harvest_drafts owner db =
      dexie.sort_by_desc (λ d. d.updated_at)
        (dexie.select (λ d. d.owner_id == owner) db.harvest_drafts)
