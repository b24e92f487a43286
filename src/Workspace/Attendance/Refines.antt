-- ===== src/Workspace/Attendance/Refines.antt =====
-- The handlers of the workspace are calls on the device on behalf of its user.
use mathlib.Core.Path.{subst}
use koranco.Base.{
  String, ◌≡◌, refl, sym, Bool, true, false, not, Option, some, Result, ok, err, Bool-cases,
  Option-cases, inl, inr, if_either,
}
use koranco.Dexie.{Dexie}
use koranco.Types.Server.{Instant, AuthenticatedUser, AttendanceSession}
use koranco.Types.Local.{OutboxOperation, LocalAttendanceDraft}
use koranco.Offline.Db.{Db}
use koranco.Offline.Attendance.{save_local_draft, queue_submission}
use koranco.Sync.Answers.{Answer}
use koranco.Workspace.Roster.{entries_of}
use koranco.Workspace.State.{WorkspaceState}
use koranco.Workspace.Attendance.{
  save, submit, queue_and_sync, if_saved, sync_now, saved, synchronized,
}
use koranco.Device.OnBehalf.{ByUser, none_done, then_done, one_done}
use koranco.Device.{step, save_attendance, queue_attendance, sync_attendance}

module _ ⦃dexie : Dexie⦄ where
  saved-db :
      (constraint : String) (s : WorkspaceState) (r : Result LocalAttendanceDraft × Db)
      → (saved constraint s r).2 ≡ r.1
  saved-db constraint s (ok _, db) = refl
  saved-db constraint s (err e, db) = refl

  save-ByUser :
      (constraint : String) (id : String) (now : Instant) (s : WorkspaceState) (db : Db)
      → ((user : AuthenticatedUser) → s.user ≡ some user → user.id ≡ id)
      → ByUser id db (save constraint now s db).2
  unfolding step save
  save-ByUser constraint id now s db same = elim (Option-cases s.session) [
    | inl h ↦ rw (h, save) (none_done id db)
    | inr (session, h) ↦ elim (Option-cases s.user) [
      | inl u ↦ rw (h, save, u) (none_done id db)
      | inr (user, u) ↦
          rw (h, save, u)
            (subst (ByUser id db)
              (sym (
                saved-db constraint s
                  (save_local_draft user.id session.id (entries_of s.roster) now db)))
              (one_done id (save_attendance user.id session.id (entries_of s.roster) now) db
                (same user u)))
    ]
  ]

  synchronized-ByUser :
      (server : OutboxOperation → Answer AttendanceSession)
      (reply : Result (Option AttendanceSession)) (user : AuthenticatedUser) (s : WorkspaceState)
      (r : Result OutboxOperation × Db)
      → ByUser user.id r.1 (synchronized server reply user s r).1
  unfolding step
  synchronized-ByUser server reply user s (err e, db) = none_done user.id db
  synchronized-ByUser server reply user s (ok o, db) =
      one_done user.id (sync_attendance user.id server) db refl

  queue_and_sync-ByUser :
      (server : OutboxOperation → Answer AttendanceSession)
      (reply : Result (Option AttendanceSession)) (uuid : String) (now : Instant)
      (user : AuthenticatedUser) (session : AttendanceSession) (s : WorkspaceState) (db : Db)
      → ByUser user.id db (queue_and_sync server reply uuid now user session s db).1
  unfolding queue_and_sync step
  queue_and_sync-ByUser server reply uuid now user session s db =
      then_done user.id db (queue_submission user.id session.id uuid now db).1 _
        (one_done user.id (queue_attendance user.id session.id uuid now) db refl)
        (synchronized-ByUser server reply user s (queue_submission user.id session.id uuid now db))

  if_saved-ByUser :
      (id : String) (later : WorkspaceState → Db → WorkspaceState × Db) (db : Db)
      (x : Bool × WorkspaceState × Db)
      → ByUser id db x.2
      → ((s : WorkspaceState) (db' : Db) → ByUser id db' (later s db').1)
      → ByUser id db (if_saved later x).1
  if_saved-ByUser id later db (true, s, db') h after = then_done id db db' _ h (after s db')
  if_saved-ByUser id later db (false, s, db') h after = h

  submit-ByUser :
      (constraint : String) (confirmed : Bool) (server : OutboxOperation → Answer AttendanceSession)
      (reply : Result (Option AttendanceSession)) (uuid : String) (now : Instant)
      (user : AuthenticatedUser) (s : WorkspaceState) (db : Db)
      → s.user ≡ some user
      → ByUser user.id db (submit constraint confirmed server reply uuid now s db).1
  unfolding submit
  submit-ByUser constraint confirmed server reply uuid now user s db u =
      elim (Option-cases s.session) [
        | inl h ↦ rw (h, submit) (none_done user.id db)
        | inr (session, h) ↦ elim (Bool-cases (not confirmed)) [
          | inl declined ↦ rw (h, submit, u, declined) (none_done user.id db)
          | inr agreed ↦
              rw (h, submit, u, agreed)
                (if_either (λ (r : WorkspaceState × Db). ByUser user.id db r.1) s.dirty _ _
                  (if_saved-ByUser user.id _ db _
                    (save-ByUser constraint user.id now (record s { saving = true }) db
                      (λ x e. cc (e, u)))
                    (λ s' db'. queue_and_sync-ByUser server reply uuid now user session s' db'))
                  (queue_and_sync-ByUser server reply uuid now user session
                    (record s { saving = true }) db))
        ]
      ]

  sync_now-ByUser :
      (server : OutboxOperation → Answer AttendanceSession)
      (reply : Result (Option AttendanceSession)) (user : AuthenticatedUser) (s : WorkspaceState)
      (db : Db)
      → s.user ≡ some user
      → ByUser user.id db (sync_now server reply s db).2
  unfolding sync_now step
  sync_now-ByUser server reply user s db u =
      rw (u, sync_now) (one_done user.id (sync_attendance user.id server) db refl)

  -- For a page with a user, whatever its save, submit and sync do to the local stores, with every
  -- answer of the user, of the server and of the stores, is a sequence of calls on the device on
  -- behalf of that user.
  pub handlers-ByUser :
      (constraint : String) (confirmed : Bool) (server : OutboxOperation → Answer AttendanceSession)
      (reply : Result (Option AttendanceSession)) (uuid : String) (now : Instant)
      (user : AuthenticatedUser) (s : WorkspaceState) (db : Db)
      → s.user ≡ some user
      → ByUser user.id db (save constraint now s db).2
        × ByUser user.id db (submit constraint confirmed server reply uuid now s db).1
        × ByUser user.id db (sync_now server reply s db).2
  handlers-ByUser constraint confirmed server reply uuid now user s db u = (
    save-ByUser constraint user.id now s db (λ x e. cc (e, u)),
    submit-ByUser constraint confirmed server reply uuid now user s db u,
    sync_now-ByUser server reply user s db u,
  )
