-- ===== src/Workspace/Attendance/Honest.antt =====
-- What the page says of the server's confirmation.
use koranco.Base.{
  String, ◌≡◌, ◌≢◌, ◌↔◌, refl, true, false, ◌&&◌, ◌==◌, Option, none, some, Has, Result, ok, err,
  Failure, arith,
}
use koranco.Dexie.{Dexie}
use koranco.Types.Server.{Instant, AuthenticatedUser, AttendanceSession}
use koranco.Types.Local.{LocalDraftState, OutboxState, OutboxOperation}
use koranco.Offline.Db.{Db}
use koranco.Offline.Attendance.{queue_submission}
use koranco.Sync.Answers.{SyncOutcome, Answer, is_queued}
use koranco.Sync.Attendance as SA
use koranco.Sync.Attendance.Keeps.{confirmed}
use koranco.Sync.Attendance.Queue.{sync_attendance-synced_iff, sync_attendance_untouched}
use koranco.Workspace.State.{WorkspaceState, after_submit, after_sync_now}
use koranco.Workspace.Attendance.{submit, queue_and_sync, sync_now}

-- The outcome of `submit` is the state "synced" exactly for a sync with the outcome "synced" after
-- which the session could be read again.
after_submit-synced :
    (outcome : SyncOutcome) (reply : Result (Option AttendanceSession)) (s : WorkspaceState)
    → s.local_state ≢ LocalDraftState.synced
    → ((after_submit outcome reply s).local_state ≡ LocalDraftState.synced)
      ↔ ((outcome ≡ SyncOutcome.synced) × ((a : AttendanceSession) × (reply ≡ ok (some a))))
unfolding after_submit
after_submit-synced SyncOutcome.synced (err e) s n = (λ h. absurd (n h), λ (_, (a, e)). cc)
after_submit-synced SyncOutcome.synced (ok none) s n = (λ h. absurd (n h), λ (_, (a, e)). cc)
after_submit-synced SyncOutcome.synced (ok (some a)) s n = (λ h. (refl, (a, refl)), λ _. refl)
after_submit-synced SyncOutcome.waiting reply s n = (λ h. absurd (n h), λ (e, _). cc)
after_submit-synced SyncOutcome.authentication_required reply s n =
    (λ h. absurd (n h), λ (e, _). cc)
after_submit-synced SyncOutcome.needs_attention reply s n = (λ h. cc, λ (e, _). cc)

module _ ⦃dexie : Dexie⦄ where
  -- A page with a user and a session, no unsaved change, and a draft that is queued by a confirmed
  -- `submit` shows the attendance as synced at its end exactly when the server confirmed every
  -- queued operation of the user and the session could be read again.
  pub submit-synced :
      (constraint : String) (server : OutboxOperation → Answer AttendanceSession)
      (reply : Result (Option AttendanceSession)) (uuid : String) (now : Instant)
      (user : AuthenticatedUser) (session : AttendanceSession) (s : WorkspaceState) (db db' : Db)
      (o : OutboxOperation)
      → s.user ≡ some user
      → s.session ≡ some session
      → s.dirty ≡ false
      → queue_submission user.id session.id uuid now db ≡ (ok o, db')
      → ((submit constraint true server reply uuid now s db).0.local_state ≡ LocalDraftState.synced)
        ↔ (((x : OutboxOperation) → Has x (SA.queue user.id db') → confirmed server x ≡ true)
            × ((a : AttendanceSession) × (reply ≡ ok (some a))))
  unfolding submit queue_and_sync
  submit-synced constraint server reply uuid now user session s db db' o u h clean queued =
      let (to, from) =
        after_submit-synced (SA.sync_attendance server user.id db').0 reply
          (record s {
            dirty = false;
            saving = true;
            local_state = LocalDraftState.pending_submission;
          })
          (λ e. cc) in
      let (every, back) = sync_attendance-synced_iff server user.id db' in
      rw (h, submit, u, clean, queue_and_sync, queued)
        ((λ e. let (x, a) = to e in (every x, a)), (λ (x, a). from (back x, a)))

  -- If an operation in the outbox needs attention and every queued operation of the page's user is
  -- confirmed and the session can be read, `syncNow` shows the page as synced while that operation
  -- is in the outbox as before, unsent.
  pub sync_now_unsent :
      (server : OutboxOperation → Answer AttendanceSession) (user : AuthenticatedUser)
      (a : AttendanceSession) (s : WorkspaceState) (db : Db) (k : String) (o : OutboxOperation)
      → s.user ≡ some user
      → dexie.get k db.outbox ≡ some o
      → o.state ≡ OutboxState.needs_attention
      → ((x : OutboxOperation) → Has x (SA.queue user.id db) → confirmed server x ≡ true)
      → ((sync_now server (ok (some a)) s db).1.local_state ≡ LocalDraftState.synced)
        × (dexie.get k (sync_now server (ok (some a)) s db).2.outbox ≡ some o)
  unfolding sync_now after_sync_now
  sync_now_unsent server user a s db k o u found attention every =
      let synced = (sync_attendance-synced_iff server user.id db).1 every in
      let idle : (o.owner_id == user.id && is_queued o.state) ≡ false =
        rw attention (ground arith) in
      rw (u, sync_now) (rw synced refl, sync_attendance_untouched server user.id k o db found idle)

  -- If every queued operation of the page's user is confirmed and the session cannot be read after
  -- that, `syncNow` throws and leaves the page saving, in the local state it had.
  pub sync_now_stuck :
      (server : OutboxOperation → Answer AttendanceSession) (user : AuthenticatedUser) (e : Failure)
      (s : WorkspaceState) (db : Db)
      → s.user ≡ some user
      → ((x : OutboxOperation) → Has x (SA.queue user.id db) → confirmed server x ≡ true)
      → ((sync_now server (err e) s db).0 ≡ err e)
        × ((sync_now server (err e) s db).1.saving ≡ true)
        × ((sync_now server (err e) s db).1.local_state ≡ s.local_state)
  unfolding sync_now after_sync_now
  sync_now_stuck server user e s db u every =
      let synced = (sync_attendance-synced_iff server user.id db).1 every in
      rw (u, sync_now, synced) (refl, refl, refl)
