-- ===== src/Workspace/Attendance.antt =====
-- The handlers of the component AttendanceWorkspace of modules/attendance/attendance-workspace.tsx:
-- what they do to its state and to the local stores.
pub mod Refines
pub mod Honest
use koranco.Base.{
  ℕ, String, Bool, true, false, not, ◌&&◌, Option, none, some, List, [], ◌∷◌, map, eqb,
  if◌then◌else◌, Result, ok, err, error, Failure, api_error, constraint_error,
}
use koranco.Dexie.{Dexie}
use koranco.Types.Server.{
  Instant, AuthenticatedUser, Role, supervisor, Worker, AttendanceSession, SessionStatus, draft,
  submitted,
}
use koranco.Types.Local.{
  LocalDraftState, editing, pending_submission, LocalAttendanceDraft, OutboxOperation, OfflineLease,
}
use koranco.Offline.Db.{Db}
use koranco.Offline.Lease.{attendance, includes, valid_offline_lease}
use koranco.Offline.Reference.{cache_workers, cached_workers}
use koranco.Offline.Attendance.{
  cache_server_draft, save_local_draft, queue_submission, owner_draft, local_state as state_of,
}
use koranco.Sync.Answers.{SyncOutcome, Answer}
use koranco.Sync.Attendance.{sync_attendance}
use koranco.Workspace.Roster.{RosterItem, from_entry, online_roster, offline_roster, entries_of}
use koranco.Workspace.State.{WorkspaceState, submit_message, after_submit, after_sync_now}

abbrev is_some {ℓ} : {A : Type ℓ} → Option A → Bool
is_some none = false
is_some (some _) = true

module _ ⦃dexie : Dexie⦄ where
  abbrev pub synchronized :
      (OutboxOperation → Answer AttendanceSession)
      → Result (Option AttendanceSession)
      → AuthenticatedUser
      → WorkspaceState
      → Result OutboxOperation × Db
      → WorkspaceState × Db
  synchronized server reply user s (err e, db) =
      (record s { error_text = submit_message e; saving = false }, db)
  synchronized server reply user s (ok _, db) =
      let (outcome, db') = sync_attendance server user.id db in
      (after_submit outcome reply (record s { local_state = pending_submission }), db')

  -- What `submit` does after the draft was saved.
  unfoldable pub queue_and_sync :
      (OutboxOperation → Answer AttendanceSession)
      → Result (Option AttendanceSession)
      → (uuid : String) → Instant
      → AuthenticatedUser
      → AttendanceSession
      → WorkspaceState
      → Db
      → WorkspaceState × Db
  unfolding after_submit
  queue_and_sync server reply uuid now user session s db =
      synchronized server reply user s (queue_submission user.id session.id uuid now db)

  abbrev pub if_saved :
      (WorkspaceState → Db → WorkspaceState × Db) → Bool × WorkspaceState × Db → WorkspaceState × Db
  if_saved later (true, s, db) = later s db
  if_saved later (false, s, db) = (record s { saving = false }, db)

-- `constraint_message` is the message of a rejection by the database.
module _ ⦃dexie : Dexie⦄ (constraint_message : String) where
  abbrev pub save_message : Failure → String
  save_message (error m) = m
  save_message (api_error m _) = m
  save_message constraint_error = constraint_message

  abbrev pub saved : WorkspaceState → Result LocalAttendanceDraft × Db → Bool × WorkspaceState × Db
  saved s (ok _, db) = (
    true,
    record s {
      saving = false;
      error_text = "";
      dirty = false;
      local_state = editing;
      success = "Saved on this device.";
    },
    db,
  )
  saved s (err e, db) = (false, record s { saving = false; error_text = save_message e }, db)

  -- The Boolean says whether `save` returns the session.
  unfoldable pub save : Instant → WorkspaceState → Db → Bool × WorkspaceState × Db
  save now s db = elim s.session [
    | none ↦ (false, s, db)
    | some session ↦ elim s.user [
      | none ↦ (false, s, db)
      | some user ↦ saved s (save_local_draft user.id session.id (entries_of s.roster) now db)
    ]
  ]

  -- `confirmed` is the answer to the question that the browser asks.
  unfoldable pub submit :
      (confirmed : Bool)
      → (OutboxOperation → Answer AttendanceSession)
      → Result (Option AttendanceSession)
      → (uuid : String) → Instant
      → WorkspaceState
      → Db
      → WorkspaceState × Db
  unfolding save queue_and_sync
  submit confirmed server reply uuid now s db = elim s.session [
    | none ↦ (s, db)
    | some session ↦ elim s.user [
      | none ↦ (s, db)
      | some user ↦
          let busy : WorkspaceState = record s { saving = true } in
          if not confirmed
          then (s, db)
          else if s.dirty
          then if_saved (queue_and_sync server reply uuid now user session) (save now busy db)
          else queue_and_sync server reply uuid now user session busy db
    ]
  ]

  unfoldable pub open_review : Instant → WorkspaceState → Db → WorkspaceState × Db
  unfolding save
  open_review now s db =
      let (ready, s', db') : Bool × WorkspaceState × Db =
        if s.dirty then save now s db else (is_some s.session, s, db) in
      (if ready then record s' { review = true } else s', db')

module _ ⦃dexie : Dexie⦄ where
  unfoldable pub sync_now :
      (OutboxOperation → Answer AttendanceSession)
      → Result (Option AttendanceSession)
      → WorkspaceState
      → Db
      → Result (Unit {0}) × WorkspaceState × Db
  unfolding after_sync_now
  sync_now server reply s db = elim s.user [
    | none ↦ (ok tt, s, db)
    | some user ↦
        let (outcome, db') = sync_attendance server user.id db in
        let (r, s') = after_sync_now outcome reply (record s { saving = true }) in (r, s', db')
  ]
