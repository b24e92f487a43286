-- ===== src/Workspace/State.antt =====
-- The state of the component AttendanceWorkspace of modules/attendance/attendance-workspace.tsx, and
-- what its handlers make of it once a sync has an outcome.
use koranco.Base.{
  String, Bool, false, Option, none, some, List, map, Result, ok, err, error, Failure, api_error,
}
use koranco.Types.Server.{AuthenticatedUser, AttendanceSession}
use koranco.Types.Local.{LocalDraftState}
use koranco.Sync.Answers.{SyncOutcome}
use koranco.Workspace.Roster.{RosterItem, from_entry}

pub record WorkspaceState : Type 0 where
  pub user : Option AuthenticatedUser
  pub session : Option AttendanceSession
  pub roster : List RosterItem
  pub dirty : Bool
  pub saving : Bool
  pub review : Bool
  pub error_text : String
  pub success : String
  pub local_state : LocalDraftState

-- What `submit` shows for a thrown error.
abbrev pub submit_message : Failure → String
submit_message (api_error m _) = m
submit_message _ = "Attendance could not be submitted. Your draft is still available."

unfoldable pub confirmed_state : AttendanceSession → String → WorkspaceState → WorkspaceState
unfolding from_entry
confirmed_state a message s = record s {
  session = some a;
  roster = map from_entry a.entries;
  local_state = LocalDraftState.synced;
  success = message;
}

-- The rest of `submit` once the sync has an outcome; `reply` is what getAttendance came to. A read of
-- the entries of `undefined` throws.
unfoldable pub after_submit :
    SyncOutcome → Result (Option AttendanceSession) → WorkspaceState → WorkspaceState
unfolding confirmed_state
after_submit SyncOutcome.synced (err e) s = record s {
  error_text = submit_message e;
  saving = false;
}
after_submit SyncOutcome.synced (ok none) s = record s {
  session = none;
  error_text = submit_message (error "");
  saving = false;
}
after_submit SyncOutcome.synced (ok (some a)) s =
    record (confirmed_state a "Attendance submitted and confirmed by the server." s) {
      review = false;
      saving = false;
    }
after_submit SyncOutcome.waiting reply s = record s {
  success = "Saved on this device. Waiting to sync.";
  review = false;
  saving = false;
}
after_submit SyncOutcome.authentication_required reply s = record s {
  error_text = "Sign in as the same user to synchronize this attendance.";
  review = false;
  saving = false;
}
after_submit SyncOutcome.needs_attention reply s = record s {
  local_state = LocalDraftState.needs_attention;
  error_text = "Attendance needs attention before it can be confirmed.";
  review = false;
  saving = false;
}

-- The rest of `syncNow`; it catches nothing, so that an error leaves the page saving.
unfoldable pub after_sync_now :
    SyncOutcome
    → Result (Option AttendanceSession)
    → WorkspaceState
    → Result (Unit {0}) × WorkspaceState
unfolding confirmed_state
after_sync_now SyncOutcome.synced (err e) s = (err e, s)
after_sync_now SyncOutcome.synced (ok none) s =
    (err (error "Cannot read properties of undefined"), record s { session = none })
after_sync_now SyncOutcome.synced (ok (some a)) s =
    (ok tt, record (confirmed_state a "Attendance confirmed by the server." s) { saving = false })
after_sync_now SyncOutcome.waiting reply s =
    (ok tt, record s { success = "Still waiting for a reliable connection."; saving = false })
after_sync_now SyncOutcome.authentication_required reply s =
    (ok tt, record s { error_text = "Sign in as the same user to sync."; saving = false })
after_sync_now SyncOutcome.needs_attention reply s = (
  ok tt,
  record s {
    error_text = "Attendance needs attention. The device copy has been preserved.";
    saving = false;
  },
)
