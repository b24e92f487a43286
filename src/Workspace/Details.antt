-- ===== src/Workspace/Details.antt =====
-- The rest of modules/attendance/attendance-workspace.tsx: the search, and what happens to a session by
-- single requests.
pub mod Sent
use Prim.Native.String.{◌++◌}
use koranco.Base.{
  ℕ, String, Bool, true, false, not, ◌&&◌, ◌||◌, Option, none, some, List, [], ◌∷◌, map, keep, eqb,
  ltb, truthy, trim, contains, utf16_length, if◌then◌else◌, Result, ok, err, error, Failure,
  api_error,
}
use koranco.Types.Server.{AttendanceSession, AttendanceStatus, present, absent, AuditEvent}
use koranco.Session.{SessionState}
use koranco.Api.{ApiRequest}
use koranco.Api.Attendance.{discard_attendance, Correction, correct_attendance, attendance_audit}
use koranco.HarvestPage.State.{null_if_empty}
use koranco.Workspace.Roster.{RosterItem, from_entry}
use koranco.Workspace.State.{WorkspaceState}

-- `history` holds the events that the page writes as lines, and `pushed` the page that the router was
-- sent to.
pub record Details : Type 0 where
  pub page : WorkspaceState
  pub search : String
  pub correcting : Option RosterItem
  pub history : List AuditEvent
  pub pushed : Option String

-- The fields of the form for a correction.
pub record CorrectionForm : Type 0 where
  pub attendance_status : AttendanceStatus
  pub time_in : String
  pub time_out : String
  pub reason : String

-- `lower` is `toLocaleLowerCase`.
unfoldable pub visible :
    (lower : String → String) → (search : String) → List RosterItem → List RosterItem
visible lower search roster =
    let term = lower (trim search) in
    keep
      (λ (item : RosterItem).
        not (truthy term)
        || contains (lower item.worker_code) term
        || contains (lower item.worker_name) term)
      roster

-- The outcome of a call, and the requests that were sent.
abbrev pub asked :
    {A : Type 0} → (ApiRequest → Result A) → Result ApiRequest → Result A × List ApiRequest
asked fetch (err e) = (err e, [])
asked fetch (ok q) = (fetch q, q ∷ [])

abbrev pub left :
    Details → Result (Unit {0}) × List ApiRequest → Result (Unit {0}) × Details × List ApiRequest
left d (err e, sent) = (err e, d, sent)
left d (ok _, sent) = (ok tt, record d { pushed = some "/attendance" }, sent)

-- `confirmed` is the answer to the question that the browser asks; an error is not handled.
unfoldable pub discard :
    (confirmed : Bool)
    → SessionState
    → (ApiRequest → Result (Unit {0}))
    → Details
    → Result (Unit {0}) × Details × List ApiRequest
discard confirmed client fetch d = elim d.page.session [
  | none ↦ (ok tt, d, [])
  | some session ↦
      if not confirmed
      then (ok tt, d, [])
      else left d (asked fetch (discard_attendance session.id client))
]

abbrev pub if_present : AttendanceStatus → String → Option String
if_present present time = null_if_empty time
if_present absent time = none

abbrev pub correction_of : CorrectionForm → (version : ℕ) → Correction
correction_of f version = record {
  expected_version = version;
  attendance_status = f.attendance_status;
  time_in = if_present f.attendance_status f.time_in;
  time_out = if_present f.attendance_status f.time_out;
  reason = trim f.reason;
}

-- `correcting?.entry_id` and `correcting.version`, where neither is falsy.
unfoldable pub version_of : Option ℕ → Option ℕ
version_of none = none
version_of (some v) = if eqb v 0 then none else some v

unfoldable pub entry_of : Option String → Option String
entry_of none = none
entry_of (some id) = if truthy id then some id else none

abbrev pub entry_corrected : Option RosterItem → Option (String × ℕ)
entry_corrected none = none
entry_corrected (some item) = elim (entry_of item.entry_id) [
  | none ↦ none
  | some id ↦ elim (version_of item.version) [ none ↦ none | some v ↦ some (id, v) ]
]

abbrev pub correction_failed : Failure → String
correction_failed (api_error m _) = m
correction_failed _ = "The correction could not be recorded."

-- A read of the entries of `undefined` throws.
abbrev pub recorded :
    Details → Result (Option AttendanceSession) × List ApiRequest → Details × List ApiRequest
recorded d (err e, sent) =
    (record d { page = record d.page { error_text = correction_failed e } }, sent)
recorded d (ok none, sent) = (
  record d { page = record d.page { session = none; error_text = correction_failed (error "") } },
  sent,
)
recorded d (ok (some a), sent) = (
  record d {
    page = record d.page {
      session = some a;
      roster = map from_entry a.entries;
      success = "Attendance correction recorded.";
    };
    correcting = none;
  },
  sent,
)

unfoldable pub correct :
    (confirmed : Bool)
    → SessionState
    → (ApiRequest → Result (Option AttendanceSession))
    → CorrectionForm
    → Details
    → Details × List ApiRequest
unfolding from_entry entry_of version_of
correct confirmed client fetch f d = elim d.page.session [
  | none ↦ (d, [])
  | some session ↦ elim (entry_corrected d.correcting) [
    | none ↦ (d, [])
    | some (id, v) ↦
        if ltb (utf16_length (trim f.reason)) 3
        then (
          record d { page = record d.page { error_text = "A correction reason is required." } },
          [],
        )
        else if not confirmed
        then (d, [])
        else recorded d (asked fetch (correct_attendance session.id id (correction_of f v) client))
  ]
]

abbrev pub history_shown : Details → Result (List AuditEvent) → Result (Unit {0}) × Details
history_shown d (err e) = (err e, d)
history_shown d (ok events) = (ok tt, record d { history = events })

-- An error is not handled.
unfoldable pub show_history :
    (ApiRequest → Result (List AuditEvent)) → Details → Result (Unit {0}) × Details
show_history fetch d = elim d.page.session [
  | none ↦ (ok tt, d)
  | some session ↦ history_shown d (fetch (attendance_audit session.id))
]
