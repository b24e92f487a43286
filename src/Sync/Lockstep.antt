-- ===== src/Sync/Lockstep.antt =====
-- The two engines side by side: how each reads the server's answers.
use koranco.Base.{
  ℕ, ◌≤◌, ◌<◌, String, ◌≡◌, ◌≢◌, refl, Bool, false, ◌&&◌, not, ok, err, Failure, error, api_error,
  constraint_error, eqb, leb, ltb, arith, if◌then◌else◌,
}
use koranco.Types.Server.{AttendanceSession, HarvestRecord}
use koranco.Sync.Answers.{
  SyncResult, applied, already_applied, conflict, rejected, SyncResponse, Verdict, confirm,
  attention, sign_in, retry, of_response,
}
use koranco.Sync.Attendance as A
use koranco.Sync.Harvest as H

-- A verdict without the record and the message.
pub data Class : Type 0 where
  confirmed to_attend needs_sign_in retried : Class

abbrev pub class_of : {R : Type 0} → Verdict R → Class
class_of (confirm r) = confirmed
class_of (attention category message) = to_attend
class_of sign_in = needs_sign_in
class_of retry = retried

-- A response of status 4xx that is neither 401 nor 403.
abbrev pub is_client_error : Failure → Bool
is_client_error (api_error message status) =
    leb 400 status && ltb status 500 && not (eqb status 401) && not (eqb status 403)
is_client_error _ = false

abbrev pub class_of_result : SyncResult → Class
class_of_result applied = confirmed
class_of_result already_applied = confirmed
class_of_result conflict = to_attend
class_of_result rejected = to_attend

class-of_response :
    {R : Type 0} (x : SyncResult) (r : SyncResponse R)
    → class_of (of_response x r) ≡ class_of_result x
class-of_response applied r = refl
class-of_response already_applied r = refl
class-of_response conflict r = refl
class-of_response rejected r = refl

-- The engines map equal results of the server alike: "applied" and "already_applied" confirm, and
-- the others ask for attention.
pub results_in_lockstep :
    (a : SyncResponse AttendanceSession) (h : SyncResponse HarvestRecord)
    → a.result ≡ h.result
    → (class_of (A.verdict (ok a)) ≡ class_of_result a.result)
      × (class_of (H.verdict (ok h)) ≡ class_of_result a.result)
unfolding A.verdict H.verdict
results_in_lockstep a h e = (class-of_response a.result a, rw e (class-of_response h.result h))

-- The engines map failures alike, but for responses 4xx other than 401 and 403: there harvest asks
-- for attention, and attendance tries again.
pub failures_in_lockstep :
    (f : Failure)
    → class_of (H.verdict (err f))
      ≡ (if is_client_error f then to_attend else class_of (A.verdict (err f)))
unfolding A.verdict H.verdict
failures_in_lockstep (error message) = refl
failures_in_lockstep constraint_error = refl
failures_in_lockstep (api_error message status) = ground arith

-- A client error other than 401 and 403 puts a harvest operation aside with the server's message, and
-- leaves an attendance operation to be sent again.
pub client_errors_diverge :
    (message : String) (status : ℕ)
    → 400 ≤ status
    → status < 500
    → status ≢ 401
    → status ≢ 403
    → (A.verdict (err (api_error message status)) ≡ retry)
      × (H.verdict (err (api_error message status)) ≡ attention "invalid_payload" message)
unfolding A.verdict H.verdict
client_errors_diverge message status lo hi n401 n403 = (ground arith, ground arith)
