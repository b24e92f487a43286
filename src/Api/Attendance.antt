-- ===== src/Api/Attendance.antt =====
-- The requests of modules/attendance/api.ts.
use Prim.Native.String.{◌++◌}
use koranco.Base.{ℕ, String, Option, List, [], ◌∷◌, Result}
use koranco.Client.{post, put}
use koranco.Session.{SessionState}
use koranco.Types.Server.{DraftEntry, AttendanceStatus, present, absent}
use koranco.Api.{ApiRequest, text, number, entries, read, mutate, order, set_text, text_or_null}

abbrev pub sessions_path : String
sessions_path = "/api/v1/attendance-sessions"

abbrev pub session_path : String → String
session_path id = sessions_path ++ "/" ++ id

abbrev pub status_text : AttendanceStatus → String
status_text present = "present"
status_text absent = "absent"

unfoldable pub list_attendance : (status date_from date_to : String) → ApiRequest
list_attendance status date_from date_to =
    read sessions_path
      (set_text "date_to" date_to (set_text "date_from" date_from (set_text "status" status [])))

unfoldable pub get_attendance : String → ApiRequest
get_attendance id = read (session_path id) []

unfoldable pub create_attendance : String → SessionState → Result ApiRequest
unfolding mutate
create_attendance date = mutate post sessions_path (("attendance_date", text date) ∷ [])

unfoldable pub save_attendance_draft :
    String → ℕ → List DraftEntry → SessionState → Result ApiRequest
unfolding mutate
save_attendance_draft id version es =
    mutate put (session_path id ++ "/draft")
      (("expected_version", number version) ∷ ("entries", entries es) ∷ [])

unfoldable pub submit_attendance : String → SessionState → Result ApiRequest
unfolding order
submit_attendance id = order (session_path id ++ "/submit") []

unfoldable pub discard_attendance : String → SessionState → Result ApiRequest
unfolding order
discard_attendance id = order (session_path id ++ "/discard") []

pub record Correction : Type 0 where
  pub expected_version : ℕ
  pub attendance_status : AttendanceStatus
  pub time_in : Option String
  pub time_out : Option String
  pub reason : String

unfoldable pub correct_attendance :
    (session_id entry_id : String) → Correction → SessionState → Result ApiRequest
unfolding mutate
correct_attendance session_id entry_id c =
    mutate post (session_path session_id ++ "/entries/" ++ entry_id ++ "/correct") (
      ("expected_version", number c.expected_version)
      ∷ ("attendance_status", text (status_text c.attendance_status))
      ∷ ("time_in", text_or_null c.time_in)
      ∷ ("time_out", text_or_null c.time_out)
      ∷ ("reason", text c.reason)
      ∷ [])

unfoldable pub attendance_audit : String → ApiRequest
attendance_audit id = read (session_path id ++ "/audit") []
