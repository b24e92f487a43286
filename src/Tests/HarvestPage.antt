-- ===== src/Tests/HarvestPage.antt =====
-- Examples for the page of one harvest record.
use koranco.Base.{
  ◌≡◌, ◌↔◌, refl, true, false, none, some, [], ◌∷◌, ok, err, arith, Has, All, codes, eq_iff,
  number_at_most_zero, whole_number, trim, api_error,
}
use koranco.Dexie.Memory.{memory}
use koranco.Types.Server.{FarmUnit, active, block, fruit_count, HarvestRecord, SessionStatus}
use koranco.Types.Local.{LocalDraftState, LocalHarvestDraft, HarvestOutboxOperation}
use koranco.Offline.Db.{Db, harvest_operation_key}
use koranco.Offline.Harvest as H
use koranco.Offline.Lease.{valid_offline_lease, lease_of, includes}
use koranco.Offline.Reference.{cached_farm_units}
use koranco.Sync.Harvest as SH
use koranco.Sync.Harvest.Keeps.{confirmed}
use koranco.Device.OnBehalf.{ByUser}
use koranco.HarvestPage.State.{
  HarvestState, validate, values, draft_values, null_if_empty, find_unit,
}
use koranco.HarvestPage.Handlers.{Replies, submit_wording, save_draft, official_submit, sync_now}
use koranco.HarvestPage.Load.{load, active_units}
use koranco.Offline.Harvest.Queueing.{IsSubmission}
use koranco.HarvestPage.Form.{IsDigit, SomePositive, validate-fruit_count}
use koranco.HarvestPage.Refines.{harvest_page-ByUser}
use koranco.HarvestPage.Submission.{Read, official_submit-confirmed, official_submit-queues}
use koranco.HarvestPage.Reopened.{load-save_draft}
use koranco.Tests.Data.{
  ana, lease, harvest_1, harvest_editing_db, harvest_confirming, harvest_unreachable,
}

abbrev block_7 : FarmUnit
block_7 = record {
  id = "block-7";
  code = "B7";
  name = "Block 7";
  unit_type = block;
  parent_id = none;
  status = active;
  created_at = 0;
  updated_at = 0;
}

-- Ana has filled the form.
abbrev page : HarvestState
page = record {
  local_creation = none;
  replaced_by = none;
  user = some ana;
  verified_online = true;
  local_draft = some harvest_1;
  local_state = LocalDraftState.editing;
  official = none;
  date = "2026-01-02";
  farm_unit = some block_7;
  quantity = "105";
  unit = fruit_count;
  notes = " wet ";
  search = "";
  units = [];
  reviewing = false;
  busy = false;
  error_text = "";
  success = "";
  correcting = false;
  reason = "";
  history = [];
}

abbrev no_replies : Replies
no_replies = record { fetched = err (api_error "Bad gateway" 502); audit = ok none }

zeros : number_at_most_zero "0.000" ≡ true
unfolding number_at_most_zero
zeros = refl

exponent : number_at_most_zero " 1.5e-3 " ≡ false
unfolding number_at_most_zero
exponent = refl

signed_hex : number_at_most_zero "-0x1" ≡ false
unfolding number_at_most_zero
signed_hex = refl

below : number_at_most_zero "-12.5" ≡ true
unfolding number_at_most_zero
below = refl

no_number : number_at_most_zero "12kg" ≡ false
unfolding number_at_most_zero
no_number = refl

form_values : (values page).notes ≡ some "wet"
unfolding values trim
form_values = refl

rejected : validate (record page { quantity = "10.5" }) ≡ "Fruit count must be a whole number."
unfolding validate number_at_most_zero whole_number
rejected = refl

validate-fruit_count_example : (validate page ≡ "") ↔ (
    ((u : FarmUnit) × (some block_7 ≡ some u))
    × All IsDigit (codes "105")
    × SomePositive (codes "105"))
validate-fruit_count_example = validate-fruit_count page refl

harvest_page-ByUser_example :
    ByUser "ana" harvest_editing_db
      (load "taken" harvest_unreachable no_replies "h1" "h2" 3000 page harvest_editing_db).1
    × ByUser "ana" harvest_editing_db (save_draft 3000 page harvest_editing_db).2
    × ByUser "ana" harvest_editing_db
        (official_submit harvest_unreachable no_replies "h2" 2500 3000 page harvest_editing_db).1
    × ByUser "ana" harvest_editing_db
        (sync_now harvest_unreachable no_replies page harvest_editing_db).1
harvest_page-ByUser_example =
    harvest_page-ByUser "taken" harvest_unreachable no_replies "h1" "h2" 2500 3000 ana page
      harvest_editing_db refl

-- The draft with the values of the form, and its operation.
abbrev saved_1 : LocalHarvestDraft
saved_1 = H.edited (draft_values page) 2500 harvest_1

abbrev saved_db : Db
saved_db = record harvest_editing_db { harvest_drafts = saved_1 ∷ harvest_1 ∷ [] }

abbrev operation_1 : HarvestOutboxOperation
operation_1 = H.new_operation "ana" "h1" "op2" saved_1 3000

abbrev submitted_db : Db
submitted_db = record saved_db {
  harvest_drafts = H.waiting_draft 3000 saved_1 ∷ H.waiting_draft 3000 harvest_1 ∷ [];
  harvest_outbox = operation_1 ∷ [];
}

abbrev record_1 : HarvestRecord
record_1 = record {
  id = "h1";
  harvest_date = "2026-01-02";
  farm_unit_id = "block-7";
  farm_unit_code = "B7";
  farm_unit_name = "Block 7";
  farm_unit_type = block;
  farm_unit_active = true;
  quantity = "105";
  unit = fruit_count;
  notes = some "wet";
  status = SessionStatus.submitted;
  version = 1;
  created_by = "ana";
  created_by_name = "Ana";
  created_at = 4000;
  updated_at = 4000;
  submitted_by = some "ana";
  submitted_by_name = some "Ana";
  submitted_at = some 4000;
}

abbrev record_read : Replies
record_read = record { fetched = ok (some record_1); audit = ok (some []) }

official_submit-confirmed_example :
    ((official_submit harvest_confirming record_read "op2" 2500 3000 page
        harvest_editing_db).0.success
      ≡ submit_wording.confirmed)
    ↔ (((x : HarvestOutboxOperation)
          → Has x (SH.queue "ana" submitted_db)
          → confirmed harvest_confirming x ≡ true)
        × Read record_read)
unfolding H.queue_harvest_submission H.save_local_harvest_draft H.edited H.new_draft H.new_operation
    H.waiting_draft valid_offline_lease lease_of includes draft_values
official_submit-confirmed_example =
    official_submit-confirmed harvest_confirming record_read "op2" 2500 3000 ana harvest_1 saved_1
      page harvest_editing_db saved_db submitted_db operation_1 refl refl refl refl
      (λ e. ground (arith, eq_iff "" submit_wording.confirmed, e))

official_submit-queues_example :
    (o : HarvestOutboxOperation) × (db' : Db) × (memory.get {key = harvest_operation_key} "op2"
        db'.harvest_outbox
      ≡ some o)
    × IsSubmission "ana" "h1" "op2" harvest_1 o
    × (o.payload.harvest_date ≡ "2026-01-02")
    × (o.payload.farm_unit_id ≡ "block-7")
    × (o.payload.quantity ≡ "105")
    × (o.payload.unit ≡ fruit_count)
    × (o.payload.notes ≡ null_if_empty (trim " wet "))
    × ((official_submit harvest_unreachable no_replies "op2" 2500 3000 page harvest_editing_db).1
        ≡ (SH.sync_harvest harvest_unreachable "ana" db').1)
unfolding H.edited H.new_draft valid_offline_lease lease_of includes validate number_at_most_zero
    whole_number
official_submit-queues_example =
    official_submit-queues harvest_unreachable no_replies "op2" 2500 3000 ana harvest_1 harvest_1
      block_7 page harvest_editing_db lease lease refl refl refl refl refl refl refl refl refl refl
      refl refl

-- The unit is on the device.
abbrev cached_db : Db
cached_db = record harvest_editing_db {
  harvest_farm_units =
      record {
        key = "ana:block-7";
        owner_id = "ana";
        id = "block-7";
        code = "B7";
        name = "Block 7";
        unit_type = block;
        active = true;
        fetched_at = 1500;
      }
      ∷ [];
}

abbrev offline_page : HarvestState
offline_page = record page { verified_online = false; local_draft = none; quantity = "" }

load-save_draft_example :
    (values
        (load "" harvest_unreachable no_replies "h1" "h2" 9000 offline_page
          (save_draft 2500 page cached_db).2).0
      ≡ values page)
    × ((load "" harvest_unreachable no_replies "h1" "h2" 9000 offline_page
          (save_draft 2500 page cached_db).2).0.local_state
        ≡ LocalDraftState.editing)
    × ((load "" harvest_unreachable no_replies "h1" "h2" 9000 offline_page
          (save_draft 2500 page cached_db).2).1
        ≡ (save_draft 2500 page cached_db).2)
unfolding H.edited H.new_draft valid_offline_lease lease_of includes validate number_at_most_zero
    whole_number active_units cached_farm_units
load-save_draft_example =
    load-save_draft "" harvest_unreachable no_replies "h2" 2500 9000 ana harvest_1 harvest_1 block_7
      block_7 page offline_page cached_db lease refl refl refl refl
      (λ e. ground (arith, eq_iff "h1" "new", e)) refl refl refl refl (unfold find_unit in refl)
      refl refl
