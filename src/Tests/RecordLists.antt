-- ===== src/Tests/RecordLists.antt =====
-- Examples for the lists of records.
use koranco.Base.{
  ◌≡◌, refl, sym, ap, ◌∙◌, eq_iff, arith, true, false, some, none, [], ◌∷◌, Has, inl, inr, ok, err,
  api_error,
}
use koranco.Dexie.Memory.{memory}
use koranco.Types.Server.{FarmUnit, active, inactive, field, block}
use koranco.Offline.Reference.{cached_workers}
use koranco.Offline.Attendance as OA
use koranco.Offline.Lease.{valid_offline_lease, lease_of, includes}
use koranco.HarvestPage.State.{find_unit}
use koranco.HarvestPage.Load.{active_units}
use koranco.RecordLists.Attendance as A
use koranco.RecordLists.Harvest as H
use koranco.RecordLists.Prepared.{prepared_unit_offered}
use koranco.Tests.Data.{ana, empty, editing_db, harvest_editing_db}

abbrev block_7 : FarmUnit
block_7 = record {
  id = "block-7";
  code = "B7";
  name = "Block 7";
  unit_type = block;
  parent_id = some "field-1";
  status = active;
  created_at = 0;
  updated_at = 0;
}

abbrev field_1 : FarmUnit
field_1 = record {
  id = "field-1";
  code = "F1";
  name = "Field 1";
  unit_type = field;
  parent_id = none;
  status = inactive;
  created_at = 0;
  updated_at = 0;
}

abbrev page : H.ListState
page = record {
  user = some ana;
  verified_online = false;
  items = none;
  local_items = [];
  error_text = "";
  status = "";
  unit = "";
  date_from = "";
  date_to = "";
  preparing = true;
  prepared_at = none;
}

abbrev attendance_page : A.ListState
attendance_page = record {
  user = some ana;
  items = none;
  status = "";
  date_from = "";
  date_to = "";
  error_text = "";
  creating = true;
  local_items = [];
  roster_prepared_at = none;
  pushed = none;
}

unprepared :
    (A.prepare_roster (err (api_error "" 0)) 5000 attendance_page empty).0.error_text
    ≡ "Roster preparation requires a working connection."
unfolding A.prepare_roster A.prepare_roster_for cached_workers
unprepared = refl

pushed :
    (A.start "taken" "2026-01-02" "s9" 2500 attendance_page editing_db).0.pushed
    ≡ some "/attendance/s9"
unfolding A.start OA.create_local_draft valid_offline_lease lease_of includes
pushed = refl

no_date :
    (A.start "taken" "" "s9" 5000 attendance_page empty).0.error_text ≡ "Choose an attendance date."
unfolding A.start
no_date = refl

alone : (v : FarmUnit) → Has v (field_1 ∷ block_7 ∷ []) → v.id ≡ "block-7" → v ≡ block_7
alone v (inl e) same =
    let ids : "field-1" ≡ "block-7" = sym (ap (λ (u : FarmUnit). u.id) e) ∙ same in
    absurd (ground (arith, eq_iff "field-1" "block-7", ids))
alone v (inr (inl e)) same = e
alone v (inr (inr m)) same = elim m [ ]

prepared_unit_offered_example :
    (x : FarmUnit) × (find_unit "block-7" (
        active_units "ana"
          (H.prepare_farm_units (ok (field_1 ∷ block_7 ∷ [])) 5000 page harvest_editing_db).1)
      ≡ some x)
    × (x.id ≡ "block-7")
    × (x.code ≡ "B7")
    × (x.name ≡ "Block 7")
    × (x.unit_type ≡ block)
    × (x.status ≡ active)
prepared_unit_offered_example =
    prepared_unit_offered (field_1 ∷ block_7 ∷ []) 5000 ana page harvest_editing_db block_7 refl
      (inr (inl refl)) refl alone
