-- ===== src/Types/Server.antt =====
-- What the server sends and accepts: lib/api/auth.ts and the `api.ts` files of the modules.
use koranco.Base.{ℕ, String, Bool, Option, List}
use koranco.Types.Json.{Members}

-- Milliseconds since 1970, for a text of `toISOString`.
abbrev pub Instant : Type 0
Instant = ℕ

pub data Role : Type 0 where
  manager supervisor worker : Role

pub record AuthenticatedUser : Type 0 where
  pub id : String
  pub login_identifier : String
  pub display_name : String
  pub permissions : List String
  pub role : Role
  pub password_change_required : Bool

pub data RecordStatus : Type 0 where
  active inactive : RecordStatus

pub record Worker : Type 0 where
  pub id : String
  pub worker_code : String
  pub full_name : String
  pub status : RecordStatus
  pub created_at : Instant
  pub updated_at : Instant

pub data UnitType : Type 0 where
  field block : UnitType

pub record FarmUnit : Type 0 where
  pub id : String
  pub code : String
  pub name : String
  pub unit_type : UnitType
  pub parent_id : Option String
  pub status : RecordStatus
  pub created_at : Instant
  pub updated_at : Instant

pub data AttendanceStatus : Type 0 where
  present absent : AttendanceStatus

pub data SessionStatus : Type 0 where
  draft submitted : SessionStatus

pub record AttendanceEntry : Type 0 where
  pub id : String
  pub worker_id : String
  pub worker_code : String
  pub worker_name : String
  pub worker_active : Bool
  pub attendance_status : Option AttendanceStatus
  pub time_in : Option String
  pub time_out : Option String
  pub version : ℕ
  pub corrected_at : Option Instant

pub record AttendanceSession : Type 0 where
  pub id : String
  pub attendance_date : String
  pub status : SessionStatus
  pub version : ℕ
  pub created_by : String
  pub created_by_name : String
  pub created_at : Instant
  pub updated_at : Instant
  pub submitted_by : Option String
  pub submitted_by_name : Option String
  pub submitted_at : Option Instant
  pub present_count : ℕ
  pub absent_count : ℕ
  pub unmarked_count : ℕ
  pub entries : List AttendanceEntry

pub record DraftEntry : Type 0 where
  pub worker_id : String
  pub attendance_status : Option AttendanceStatus
  pub time_in : Option String
  pub time_out : Option String

pub data HarvestUnit : Type 0 where
  fruit_count kilograms : HarvestUnit

pub record HarvestRecord : Type 0 where
  pub id : String
  pub harvest_date : String
  pub farm_unit_id : String
  pub farm_unit_code : String
  pub farm_unit_name : String
  pub farm_unit_type : UnitType
  pub farm_unit_active : Bool
  pub quantity : String
  pub unit : HarvestUnit
  pub notes : Option String
  pub status : SessionStatus
  pub version : ℕ
  pub created_by : String
  pub created_by_name : String
  pub created_at : Instant
  pub updated_at : Instant
  pub submitted_by : Option String
  pub submitted_by_name : Option String
  pub submitted_at : Option Instant

-- `Record<string, unknown>` is an object of JSON.
pub record AuditEvent : Type 0 where
  pub id : String
  pub action : String
  pub actor_user_id : String
  pub actor_display_name : String
  pub before_state : Option Members
  pub after_state : Option Members
  pub reason : Option String
  pub occurred_at : Instant
