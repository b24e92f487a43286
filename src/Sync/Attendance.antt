-- ===== src/Sync/Attendance.antt =====
-- modules/attendance/offline/sync.ts.
pub mod Keeps
pub mod Queue
pub mod Sound
pub mod Attempts
use koranco.Base.{
  ℕ, ◌+◌, String, ◌&&◌, Option, none, some, List, [], ◌∷◌, ◌==◌, eqb, if◌then◌else◌, Result, ok,
  err, error, api_error, constraint_error,
}
use koranco.Dexie.{Dexie}
use koranco.Client.{Request, post, Fetched, with_accept, api_request, defined}
use koranco.Session.{SessionState, csrf_headers}
use koranco.Types.Server.{Instant, AttendanceSession}
use koranco.Types.Local.{
  LocalDraftState, LocalAttendanceDraft, OutboxState, OutboxOperation, AttendancePayload,
}
use koranco.Offline.Db.{Db}
use koranco.Sync.Answers.{
  SyncOutcome, SyncResponse, Answer, Verdict, confirm, attention, sign_in, retry, of_response,
  is_queued,
}

abbrev pub Reply : Type 0
Reply = Result (SyncResponse AttendanceSession)

unfoldable pub sync_request : List (String × String) → OutboxOperation → Request AttendancePayload
sync_request csrf o = with_accept (record {
  method = post;
  path = "/api/v1/attendance-sessions/sync";
  headers = ("Content-Type", "application/json") ∷ csrf;
  body = some o.payload;
})

-- Without a token nothing is sent.
unfoldable pub send :
    SessionState
    → (Request AttendancePayload → Fetched (SyncResponse AttendanceSession))
    → OutboxOperation
    → Reply
unfolding sync_request csrf_headers api_request
send session fetch o = elim (csrf_headers session) [
  | err e ↦ err e
  | ok csrf ↦ defined (api_request (fetch (sync_request csrf o)))
]

abbrev pub of_status : ℕ → Verdict AttendanceSession
of_status status =
    if eqb status 401
    then sign_in
    else if eqb status 403
    then attention "authorization_revoked"
        "Attendance access is no longer available. Work remains on this device."
    else retry

unfoldable pub verdict : Reply → Verdict AttendanceSession
verdict (ok r) = of_response r.result r
verdict (err (api_error message status)) = of_status status
verdict (err (error message)) = retry
verdict (err constraint_error) = retry

abbrev pub session_id_or : String → Option AttendanceSession → String
session_id_or id none = id
session_id_or id (some s) = s.id

abbrev pub session_version : Option AttendanceSession → Option ℕ
session_version none = none
session_version (some s) = some s.version

unfoldable pub confirmed_draft :
    OutboxOperation
    → SyncResponse AttendanceSession
    → Instant
    → LocalAttendanceDraft
    → LocalAttendanceDraft
confirmed_draft o r at d = record d {
  state = LocalDraftState.synced;
  server_session_id = some (session_id_or o.aggregate_id r.accepted);
  base_server_version = session_version r.accepted;
  updated_at = at;
  last_message = some "Attendance confirmed by the server.";
}

unfoldable pub moved : OutboxState → (category message : String) → OutboxOperation → OutboxOperation
moved state category message o = record o {
  state = state;
  last_error_category = some category;
  last_message = some message;
}

unfoldable pub draft_moved :
    LocalDraftState → (message : String) → LocalAttendanceDraft → LocalAttendanceDraft
draft_moved state message d = record d { state = state; last_message = some message }

module _ ⦃dexie : Dexie⦄ where
  -- An iteration of the loop goes on to the next operation, or ends the call.
  pub data Step : Type 0 where
    proceed : Db → Step
    stop : SyncOutcome → Db → Step

  -- A row of each store is changed, if it is there.
  unfoldable pub note :
      OutboxOperation
      → (OutboxOperation → OutboxOperation)
      → (LocalAttendanceDraft → LocalAttendanceDraft)
      → Db
      → Db
  note o f g db = record db {
    outbox = dexie.update o.operation_id f db.outbox;
    drafts = dexie.update o.aggregate_id g db.drafts;
  }

  unfoldable pub mark_syncing : OutboxOperation → Db → Db
  unfolding note
  mark_syncing o db =
      note o (λ x. record x { state = OutboxState.syncing; attempt_count = o.attempt_count + 1 })
        (λ d. record d { state = LocalDraftState.syncing }) db

  unfoldable pub settle : OutboxOperation → Verdict AttendanceSession → Instant → Db → Step
  unfolding note confirmed_draft moved draft_moved
  settle o (confirm r) at db = proceed (record db {
    outbox = dexie.delete o.operation_id db.outbox;
    drafts = dexie.update o.aggregate_id (confirmed_draft o r at) db.drafts;
  })
  settle o (attention category message) at db = stop SyncOutcome.needs_attention (
      note o (moved OutboxState.needs_attention category message)
        (draft_moved LocalDraftState.needs_attention message) db)
  settle o sign_in at db = stop SyncOutcome.authentication_required (
      note o
        (moved OutboxState.pending "authentication_required"
          "Sign in as the same user to synchronize attendance.")
        (draft_moved LocalDraftState.pending_submission
          "Sign in as the same user to synchronize attendance.")
        db)
  settle o retry at db = stop SyncOutcome.waiting (
      note o (moved OutboxState.pending "temporary_connection" "Waiting for a reliable connection.")
        (draft_moved LocalDraftState.pending_submission "Saved on this device. Waiting to sync.")
        db)

  -- One iteration of the loop.
  unfoldable pub sync_one :
      (OutboxOperation → Answer AttendanceSession) → OutboxOperation → Db → Step
  unfolding mark_syncing settle verdict
  sync_one server o db =
      let answer = server o in settle o (verdict answer.reply) answer.at (mark_syncing o db)

  -- The loop. With no operation the outcome is "synced".
  unfoldable pub sync_loop :
      (OutboxOperation → Answer AttendanceSession) → List OutboxOperation → Db → SyncOutcome × Db
  unfolding sync_one
  sync_loop server [] db = (SyncOutcome.synced, db)
  sync_loop server (o ∷ os) db = elim (sync_one server o db) [
    | proceed db' ↦ sync_loop server os db'
    | stop outcome db' ↦ (outcome, db')
  ]

  -- The owner's queued operations.
  abbrev pub queue : String → Db → List OutboxOperation
  queue owner db =
      dexie.sort_by (λ o. o.sequence)
        (dexie.select (λ o. o.owner_id == owner && is_queued o.state) db.outbox)

  unfoldable pub sync_attendance :
      (OutboxOperation → Answer AttendanceSession) → String → Db → SyncOutcome × Db
  unfolding sync_loop
  sync_attendance server owner db = sync_loop server (queue owner db) db
