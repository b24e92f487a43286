-- ===== src/HarvestPage/State.antt =====
-- The state of the component HarvestWorkspace of modules/harvest/harvest-workspace.tsx, how a draft and
-- a record fill its form, and what the form holds.
use koranco.Base.{
  String, Bool, true, false, not, ◌&&◌, ◌||◌, ◌==◌, Option, none, some, List, [], ◌∷◌, truthy, trim,
  whole_number, number_at_most_zero, if◌then◌else◌, Result, Failure, api_error,
}
use koranco.Types.Server.{
  AuthenticatedUser, FarmUnit, RecordStatus, active, inactive, HarvestUnit, fruit_count, kilograms,
  HarvestRecord, SessionStatus, draft, submitted, AuditEvent,
}
use koranco.Types.Local.{LocalDraftState, CachedFarmUnit, LocalHarvestDraft, HarvestDraftValues}
use koranco.Api.Harvest.{HarvestValues}

-- `local_creation` is the ref localCreation, and `replaced_by` the page that the router was sent to.
pub record HarvestState : Type 0 where
  pub local_creation : Option (Result LocalHarvestDraft)
  pub replaced_by : Option String
  pub user : Option AuthenticatedUser
  pub verified_online : Bool
  pub local_draft : Option LocalHarvestDraft
  pub local_state : LocalDraftState
  pub official : Option HarvestRecord
  pub date : String
  pub farm_unit : Option FarmUnit
  pub quantity : String
  pub unit : HarvestUnit
  pub notes : String
  pub search : String
  pub units : List FarmUnit
  pub reviewing : Bool
  pub busy : Bool
  pub error_text : String
  pub success : String
  pub correcting : Bool
  pub reason : String
  pub history : List AuditEvent

-- What the page shows for a thrown error.
abbrev pub error_message : Failure → String
error_message (api_error m _) = m
error_message _ = "The harvest record could not be saved. Check the connection and try again."

abbrev pub status_of : Bool → RecordStatus
status_of true = active
status_of false = inactive

-- The two times of the unit, which nothing reads, are empty texts in the source.
unfoldable pub cached_to_farm_unit : CachedFarmUnit → FarmUnit
cached_to_farm_unit u = record {
  id = u.id;
  code = u.code;
  name = u.name;
  unit_type = u.unit_type;
  parent_id = none;
  status = status_of u.active;
  created_at = 0;
  updated_at = 0;
}

unfoldable pub record_farm_unit : HarvestRecord → FarmUnit
record_farm_unit r = record {
  id = r.farm_unit_id;
  code = r.farm_unit_code;
  name = r.farm_unit_name;
  unit_type = r.farm_unit_type;
  parent_id = none;
  status = status_of r.farm_unit_active;
  created_at = 0;
  updated_at = 0;
}

-- `notes ?? ""`
abbrev pub text_of : Option String → String
text_of none = ""
text_of (some t) = t

-- `text || null`
abbrev pub null_if_empty : String → Option String
null_if_empty t = if truthy t then some t else none

unfoldable pub find_unit : String → List FarmUnit → Option FarmUnit
find_unit id [] = none
find_unit id (u ∷ us) = if u.id == id then some u else find_unit id us

unfoldable pub apply_local : LocalHarvestDraft → List FarmUnit → HarvestState → HarvestState
unfolding find_unit
apply_local d available s = record s {
  local_draft = some d;
  local_state = d.state;
  date = d.harvest_date;
  quantity = d.quantity;
  unit = d.unit;
  notes = text_of d.notes;
  farm_unit = find_unit d.farm_unit_id available;
}

abbrev pub shown_state : SessionStatus → LocalDraftState
shown_state submitted = LocalDraftState.synced
shown_state draft = LocalDraftState.editing

unfoldable pub apply_record : HarvestRecord → HarvestState → HarvestState
unfolding record_farm_unit
apply_record r s = record s {
  official = some r;
  date = r.harvest_date;
  farm_unit = some (record_farm_unit r);
  quantity = r.quantity;
  unit = r.unit;
  notes = text_of r.notes;
  local_state = shown_state r.status;
}

abbrev id_or_empty : Option FarmUnit → String
id_or_empty none = ""
id_or_empty (some u) = u.id

unfoldable pub values : HarvestState → HarvestValues
values s = record {
  harvest_date = s.date;
  farm_unit_id = id_or_empty s.farm_unit;
  quantity = s.quantity;
  unit = s.unit;
  notes = null_if_empty (trim s.notes);
}

-- The values as the local stores take them.
unfoldable pub draft_values : HarvestState → HarvestDraftValues
unfolding values
draft_values s = record {
  harvest_date = (values s).harvest_date;
  farm_unit_id = (values s).farm_unit_id;
  quantity = (values s).quantity;
  unit = (values s).unit;
  notes = (values s).notes;
}

abbrev pub is_fruit : HarvestUnit → Bool
is_fruit fruit_count = true
is_fruit kilograms = false

-- What is wrong with the form; the empty text when nothing is.
unfoldable pub validate : HarvestState → String
validate s = elim s.farm_unit [
  | none ↦ "Choose a FarmUnit."
  | some _ ↦
      if not (truthy s.quantity) || number_at_most_zero s.quantity
      then "Enter a quantity greater than zero."
      else if is_fruit s.unit && not (whole_number s.quantity)
      then "Fruit count must be a whole number."
      else ""
]
