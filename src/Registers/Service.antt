-- ===== src/Registers/Service.antt =====
-- The server, as the registers call it: a request is built from the session, and sent if that does not
-- throw.
use koranco.Base.{ℕ, Bool, false, List, [], ◌∷◌, eqb, Result, ok, err, Failure, api_error}
use koranco.Session.{SessionState}
use koranco.Api.{ApiRequest}

-- `fetch` is what a request comes to; the registers read nothing of the answers to what they send.
pub record Service : Type 0 where
  pub session : SessionState
  pub fetch : ApiRequest → Result (Unit {0})

-- The outcome, and the requests that were sent.
unfoldable pub perform : Service → Result ApiRequest → Result (Unit {0}) × List ApiRequest
perform v (err e) = (err e, [])
perform v (ok q) = (v.fetch q, q ∷ [])

-- `e instanceof ApiError && e.status === status`
abbrev pub has_status : ℕ → Failure → Bool
has_status status (api_error _ s) = eqb s status
has_status status _ = false
