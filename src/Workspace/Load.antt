-- ===== src/Workspace/Load.antt =====
-- How modules/attendance/attendance-workspace.tsx opens a session: from the server, or from the device.
use koranco.Base.{
  ℕ, String, Bool, false, not, Option, none, some, List, [], ◌∷◌, eqb, if◌then◌else◌, Result, ok,
  err, Failure, api_error,
}
use koranco.Dexie.{Dexie}
use koranco.Types.Server.{Instant, AuthenticatedUser, supervisor, Worker, AttendanceSession, draft}
use koranco.Types.Local.{LocalAttendanceDraft, OfflineLease}
use koranco.Offline.Db.{Db}
use koranco.Offline.Lease.{attendance, includes, valid_offline_lease}
use koranco.Offline.Reference.{cache_workers, cached_workers}
use koranco.Offline.Attendance.{cache_server_draft, owner_draft, local_state as state_of}
use koranco.Workspace.Roster.{online_roster, offline_roster}
use koranco.Workspace.State.{WorkspaceState}

-- `version: local.baseServerVersion ?? 1`
abbrev version_or_one : Option ℕ → ℕ
version_or_one none = 1
version_or_one (some v) = v

abbrev message_or_opened : Option String → String
message_or_opened none = "Offline copy opened from this device."
message_or_opened (some m) = m

-- The user and the session that a page opened from the device stands for.
unfoldable pub offline_user : OfflineLease → AuthenticatedUser
offline_user lease = record {
  id = lease.owner_id;
  login_identifier = "offline";
  display_name = lease.display_name;
  permissions = "attendance.read" ∷ "attendance.record" ∷ [];
  role = supervisor;
  password_change_required = false;
}

unfoldable pub offline_session : OfflineLease → LocalAttendanceDraft → AttendanceSession
offline_session lease local = record {
  id = local.id;
  attendance_date = local.attendance_date;
  status = draft;
  version = version_or_one local.base_server_version;
  created_by = lease.owner_id;
  created_by_name = lease.display_name;
  created_at = local.created_at;
  updated_at = local.updated_at;
  submitted_by = none;
  submitted_by_name = none;
  submitted_at = none;
  present_count = 0;
  absent_count = 0;
  unmarked_count = 0;
  entries = [];
}

abbrev pub is_forbidden : Failure → Bool
is_forbidden (api_error _ status) = eqb status 403
is_forbidden _ = false

module _ ⦃dexie : Dexie⦄ where
  abbrev no_access : String
  no_access = "You do not have permission to access attendance."

  -- The catch of `load`: the draft on this device, under the lease that expires last.
  unfoldable pub load_offline :
      (session_id : String) → Instant → WorkspaceState → Db → WorkspaceState
  unfolding offline_user offline_session offline_roster
  load_offline session_id now s db = elim (valid_offline_lease none attendance now db) [
    | none ↦ record s { error_text = "Attendance is not available offline on this device." }
    | some lease ↦ elim (owner_draft lease.owner_id session_id db) [
      | none ↦ record s { error_text = "Attendance is not available offline on this device." }
      | some local ↦ record s {
        user = some (offline_user lease);
        session = some (offline_session lease local);
        roster = offline_roster (cached_workers lease.owner_id db) local.entries;
        local_state = local.state;
        success = message_or_opened local.last_message;
      }
    ]
  ]

  abbrev pub Loaded : Type 0
  Loaded = AuthenticatedUser × AttendanceSession × List Worker

  abbrev load_failed :
      (session_id : String) → Instant → Failure → WorkspaceState → Db → WorkspaceState × Db
  load_failed session_id now e s db = (
    if is_forbidden e
        then record s { error_text = no_access }
        else load_offline session_id now s db,
    db,
  )

  abbrev cached :
      (session_id : String)
      → Instant
      → Loaded
      → WorkspaceState
      → Result LocalAttendanceDraft × Db
      → WorkspaceState × Db
  cached session_id now loaded s (err e, db) = load_failed session_id now e s db
  cached session_id now (current, a, workers) s (ok _, db) = (
    record s {
      user = some current;
      session = some a;
      roster = online_roster a.entries workers;
      local_state = state_of a.status;
    },
    db,
  )

  -- `fetched` is what the three requests came to together; the check of the session has left `db`.
  unfoldable pub load :
      (session_id : String) → Result Loaded → Instant → WorkspaceState → Db → WorkspaceState × Db
  unfolding load_offline
  load session_id (err e) now s db = load_failed session_id now e s db
  load session_id (ok (current, a, workers)) now s db =
      if not (includes current.permissions "attendance.read")
      then (record s { error_text = no_access }, db)
      else cached session_id now (current, a, workers) s
          (cache_server_draft current.id a now (cache_workers current.id workers now db).1)
