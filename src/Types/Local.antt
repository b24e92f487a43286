-- ===== src/Types/Local.antt =====
-- The rows of the local stores: the types of modules/attendance/offline/db.ts.
use koranco.Base.{ℕ, String, Bool, Option, List}
use koranco.Types.Server.{Instant, UnitType, DraftEntry, HarvestUnit}

pub record CachedWorker : Type 0 where
  pub key : String
  pub owner_id : String
  pub id : String
  pub worker_code : String
  pub full_name : String
  pub active : Bool
  pub fetched_at : Instant

pub data LocalDraftState : Type 0 where
  editing pending_submission syncing synced needs_attention : LocalDraftState

pub record LocalAttendanceDraft : Type 0 where
  pub id : String
  pub owner_id : String
  pub attendance_date : String
  pub server_session_id : Option String
  pub base_server_version : Option ℕ
  pub entries : List DraftEntry
  pub state : LocalDraftState
  pub created_at : Instant
  pub updated_at : Instant
  pub payload_version : ℕ
  pub last_message : Option String

pub data OutboxState : Type 0 where
  pending syncing needs_attention : OutboxState

pub data OperationType : Type 0 where
  submit_snapshot submit_harvest_snapshot : OperationType

pub record AttendancePayload : Type 0 where
  pub operation_id : String
  pub operation_type : OperationType
  pub target_session_id : String
  pub payload_version : ℕ
  pub attendance_date : String
  pub base_server_version : Option ℕ
  pub entries : List DraftEntry

pub record OutboxOperation : Type 0 where
  pub operation_id : String
  pub owner_id : String
  pub aggregate_id : String
  pub sequence : ℕ
  pub operation_type : OperationType
  pub state : OutboxState
  pub payload : AttendancePayload
  pub created_at : Instant
  pub attempt_count : ℕ
  pub last_error_category : Option String
  pub last_message : Option String

-- `harvest_allowed` is optional in the source: a row of schema version 1 has none.
pub record OfflineLease : Type 0 where
  pub owner_id : String
  pub display_name : String
  pub validated_at : Instant
  pub expires_at : Instant
  pub attendance_allowed : Bool
  pub harvest_allowed : Option Bool

pub record CachedFarmUnit : Type 0 where
  pub key : String
  pub owner_id : String
  pub id : String
  pub code : String
  pub name : String
  pub unit_type : UnitType
  pub active : Bool
  pub fetched_at : Instant

pub record LocalHarvestDraft : Type 0 where
  pub id : String
  pub owner_id : String
  pub harvest_date : String
  pub farm_unit_id : String
  pub quantity : String
  pub unit : HarvestUnit
  pub notes : Option String
  pub server_record_id : Option String
  pub base_server_version : Option ℕ
  pub state : LocalDraftState
  pub created_at : Instant
  pub updated_at : Instant
  pub payload_version : ℕ
  pub last_message : Option String

pub record HarvestPayload : Type 0 where
  pub operation_id : String
  pub operation_type : OperationType
  pub harvest_record_id : String
  pub payload_version : ℕ
  pub harvest_date : String
  pub farm_unit_id : String
  pub quantity : String
  pub unit : HarvestUnit
  pub notes : Option String
  pub base_server_version : Option ℕ

pub record HarvestOutboxOperation : Type 0 where
  pub operation_id : String
  pub owner_id : String
  pub aggregate_id : String
  pub sequence : ℕ
  pub operation_type : OperationType
  pub state : OutboxState
  pub payload : HarvestPayload
  pub created_at : Instant
  pub attempt_count : ℕ
  pub last_error_category : Option String
  pub last_message : Option String

pub record HarvestDraftValues : Type 0 where
  pub harvest_date : String
  pub farm_unit_id : String
  pub quantity : String
  pub unit : HarvestUnit
  pub notes : Option String
