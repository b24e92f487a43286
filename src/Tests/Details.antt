-- ===== src/Tests/Details.antt =====
-- Examples for the search and the single requests of the page of a session.
use koranco.Base.{
  ◌≡◌, refl, true, false, Option, none, some, [], ◌∷◌, map, inl, ok, err, api_error, Result, trim,
  contains, utf16_length,
}
use koranco.Types.Server.{AttendanceSession, absent, present}
use koranco.Types.Local.{LocalDraftState}
use koranco.Session.{SessionState, ClientSession}
use koranco.Client.{post}
use koranco.Api.{ApiRequest, json_type, text, number, null}
use koranco.Api.Attendance.{correct_attendance}
use koranco.Workspace.Roster.{RosterItem}
use koranco.Workspace.Details.{
  Details, CorrectionForm, visible, discard, correct, entry_of, version_of,
}
use koranco.Workspace.Details.Sent.{IsComplete, correct_sends}
use koranco.Tests.Data.{ana, session_1}

abbrev client : SessionState
client = record {
  csrf_token = "t1";
  client_session = ClientSession.unknown;
  listeners = [];
  heard = [];
}

abbrev eva : RosterItem
eva = record {
  worker_id = "w1";
  worker_code = "w-1";
  worker_name = "eva";
  worker_active = true;
  included = true;
  attendance_status = some present;
  time_in = "07:05";
  time_out = "";
  entry_id = some "e1";
  version = some 3;
  corrected_at = none;
}

abbrev details : Details
details = record {
  page = record {
    user = some ana;
    session = some session_1;
    roster = eva ∷ [];
    dirty = false;
    saving = false;
    review = false;
    error_text = "";
    success = "";
    local_state = LocalDraftState.synced;
  };
  search = "";
  correcting = some eva;
  history = [];
  pushed = none;
}

abbrev form : CorrectionForm
form = record {
  attendance_status = absent;
  time_in = "07:05";
  time_out = "";
  reason = " left early ";
}

abbrev answer : ApiRequest → Result (Option AttendanceSession)
answer q = err (api_error "Stale version" 409)

abbrev request : ApiRequest
request = record {
  method = post;
  path = "/api/v1/attendance-sessions/s1/entries/e1/correct";
  query = [];
  headers = json_type ∷ ("X-CSRF-Token", "t1") ∷ [];
  body = some (
      ("expected_version", number 3)
      ∷ ("attendance_status", text "absent")
      ∷ ("time_in", null)
      ∷ ("time_out", null)
      ∷ ("reason", text "left early")
      ∷ []);
}

found : map (λ (i : RosterItem). i.worker_id) (visible (λ t. t) " ev " (eva ∷ [])) ≡ "w1" ∷ []
unfolding visible trim contains
found = refl

unconfirmed : discard false client (λ q. ok tt) details ≡ (ok tt, details, [])
unfolding discard
unconfirmed = refl

correct_sends_example : IsComplete true client form details request
unfolding correct correct_attendance entry_of version_of trim utf16_length
correct_sends_example = correct_sends true client answer form details request (inl refl)
