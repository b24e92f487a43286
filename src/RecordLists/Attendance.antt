-- ===== src/RecordLists/Attendance.antt =====
-- The component AttendanceList of modules/attendance/attendance-list.tsx.
use Prim.Native.String.{◌++◌}
use koranco.Base.{
  ℕ, String, Bool, true, false, not, Option, none, some, List, [], ◌∷◌, eqb, truthy, if◌then◌else◌,
  Result, ok, err, Failure, error, api_error, constraint_error,
}
use koranco.Dexie.{Dexie}
use koranco.Types.Server.{Instant, AuthenticatedUser, supervisor, Worker, SessionStatus}
use koranco.Types.Local.{LocalDraftState, LocalAttendanceDraft, OfflineLease}
use koranco.Offline.Db.{Db}
use koranco.Offline.Lease.{attendance, includes, valid_offline_lease}
use koranco.Offline.Reference.{cache_workers, cached_workers}
use koranco.Offline.Attendance.{create_local_draft, owner_drafts}

pub record AttendanceListItem : Type 0 where
  pub id : String
  pub attendance_date : String
  pub status : SessionStatus
  pub created_by_name : String
  pub submitted_by_name : Option String
  pub submitted_at : Option Instant
  pub entry_count : ℕ

-- `pushed` is the page that the router was sent to.
pub record ListState : Type 0 where
  pub user : Option AuthenticatedUser
  pub items : Option (List AttendanceListItem)
  pub status : String
  pub date_from : String
  pub date_to : String
  pub error_text : String
  pub creating : Bool
  pub local_items : List LocalAttendanceDraft
  pub roster_prepared_at : Option Instant
  pub pushed : Option String

unfoldable pub offline_user : OfflineLease → AuthenticatedUser
offline_user lease = record {
  id = lease.owner_id;
  login_identifier = "offline";
  display_name = lease.display_name;
  permissions = "attendance.read" ∷ "attendance.record" ∷ [];
  role = supervisor;
  password_change_required = false;
}

abbrev pub is_forbidden : Failure → Bool
is_forbidden (api_error _ status) = eqb status 403
is_forbidden _ = false

abbrev pub is_empty {ℓ} : {A : Type ℓ} → List A → Bool
is_empty [] = true
is_empty (_ ∷ _) = false

-- How a draft on the device is shown.
unfoldable pub state_label : LocalDraftState → String
state_label LocalDraftState.synced = "Server confirmed"
state_label LocalDraftState.needs_attention = "Needs attention"
state_label LocalDraftState.pending_submission = "Waiting to sync"
state_label LocalDraftState.syncing = "Waiting to sync"
state_label LocalDraftState.editing = "Saved on this device"

module _ ⦃dexie : Dexie⦄ where
  -- `current` is what getCurrentSession comes to, and `db` what it has left.
  unfoldable pub check_session : Result AuthenticatedUser → Instant → ListState → Db → ListState
  unfolding offline_user
  check_session (ok user) now s db =
      if not (includes user.permissions "attendance.read")
      then record s { error_text = "You do not have permission to access attendance." }
      else record s { user = some user }
  check_session (err _) now s db = elim (valid_offline_lease none attendance now db) [
    | none ↦ record s {
      error_text = "Your session could not be verified and offline attendance is unavailable.";
    }
    | some lease ↦ record s { user = some (offline_user lease) }
  ]

  abbrev pub lists_of :
      Result (List AttendanceListItem) → AuthenticatedUser → ListState → Db → ListState
  lists_of (ok items) user s db = record s {
    items = some items;
    local_items = owner_drafts user.id db;
  }
  lists_of (err _) user s db = record s { items = some []; local_items = owner_drafts user.id db }

  -- The lists, once listAttendance has come to `listed`.
  unfoldable pub load_lists : Result (List AttendanceListItem) → ListState → Db → ListState
  load_lists listed s db = elim s.user [ none ↦ s | some user ↦ lists_of listed user s db ]

  -- The rest of `prepareRoster`, for a user; `fetched` is what activeWorkersForRoster comes to.
  unfoldable pub prepare_roster_for :
      Result (List Worker) → Instant → AuthenticatedUser → ListState → Db → ListState × Db
  prepare_roster_for (ok workers) now user s db =
      let (fetched_at, db') = cache_workers user.id workers now db in
      (record s { roster_prepared_at = some fetched_at; error_text = ""; creating = false }, db')
  prepare_roster_for (err _) now user s db = (
    record s {
      error_text =
          if is_empty (cached_workers user.id db)
          then "Roster preparation requires a working connection."
          else "Roster could not be refreshed. The existing device copy remains available.";
      creating = false;
    },
    db,
  )

  unfoldable pub prepare_roster : Result (List Worker) → Instant → ListState → Db → ListState × Db
  prepare_roster fetched now s db = elim s.user [
    | none ↦ (s, db)
    | some user ↦ prepare_roster_for fetched now user s db
  ]

-- `constraint_message` is the message of a rejection by the database.
module _ ⦃dexie : Dexie⦄ (constraint_message : String) where
  abbrev start_message : Failure → String
  start_message (error m) = m
  start_message constraint_error = constraint_message
  start_message (api_error m status) =
      if eqb status 403 then "You do not have permission to record attendance." else m

  abbrev pub started : ListState → Result LocalAttendanceDraft × Db → ListState × Db
  started s (err e, db) = (record s { creating = false; error_text = start_message e }, db)
  started s (ok d, db) = (record s { creating = true; pushed = some ("/attendance/" ++ d.id) }, db)

  -- `start` of the form with a date; without a user it reads a field of `null` and throws.
  unfoldable pub start : (date uuid : String) → Instant → ListState → Db → ListState × Db
  start date uuid now s db =
      if not (truthy date)
      then (record s { error_text = "Choose an attendance date." }, db)
      else elim s.user [
        | none ↦ started s (err (error "Cannot read properties of null (reading 'id')"), db)
        | some user ↦ started s (create_local_draft user.id date uuid now db)
      ]
