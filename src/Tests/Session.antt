-- ===== src/Tests/Session.antt =====
-- Examples for the session and the API requests.
use koranco.Base.{false, none, some, [], ◌∷◌}
use koranco.Dexie.Memory.{memory}
use koranco.Client.{Fetched, response}
use koranco.Session.{SessionState, SessionResponse, initial, signed_in}
use koranco.Session.Coherent.{sign_in, check, sign_out, calls, IsCoherent, calls-IsCoherent}
use koranco.Api.Guarded.{IsGuarded, request_of, create_attendance, request_of-IsGuarded}
use koranco.Tests.Data.{ana, empty}

abbrev welcome : SessionResponse
welcome = record { user = ana; csrf_token = "t0k3n" }

abbrev welcomed : Fetched SessionResponse
welcomed = response (record { status = 200; json = some welcome; error_message = none })

abbrev expired : Fetched SessionResponse
expired = response (record { status = 401; json = none; error_message = some "Session expired" })

abbrev signed_out_reply : Fetched (Unit {0})
signed_out_reply = response (record { status = 204; json = none; error_message = none })

abbrev ana_session : SessionState
ana_session = record {
  csrf_token = "t0k3n";
  client_session = signed_in ana;
  listeners = 1 ∷ 2 ∷ [];
  heard = [];
}

calls-IsCoherent_example :
    IsCoherent
      (calls
        (sign_in welcomed 1000 ∷ check expired 2000 ∷ sign_out false signed_out_reply ∷ [])
        (initial, empty)).0
calls-IsCoherent_example =
    calls-IsCoherent
      (sign_in welcomed 1000 ∷ check expired 2000 ∷ sign_out false signed_out_reply ∷ []) initial
      empty (λ h. cc)

request_of-IsGuarded_example :
    IsGuarded ana_session (request_of (create_attendance "2026-01-02") ana_session)
request_of-IsGuarded_example = request_of-IsGuarded (create_attendance "2026-01-02") ana_session
