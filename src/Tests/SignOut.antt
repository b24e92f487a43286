-- ===== src/Tests/SignOut.antt =====
-- Examples for the sign-out of the account menu.
use koranco.Base.{◌≡◌, ◌⊎◌, refl, true, false, none, []}
use koranco.Dexie.Memory.{memory}
use koranco.Client.{Fetched, response, api_request}
use koranco.Session.{SessionState, signed_in, logout, csrf_headers}
use koranco.Offline.Pending.{has_pending_for_owner}
use koranco.Offline.Attendance.{new_operation}
use koranco.SignOut.{Menu, sign_out}
use koranco.SignOut.Kept.{IsOut, IsStill, sign_out_outcome}
use koranco.Tests.Data.{ana, queued_db}

abbrev reply : Fetched (Unit {0})
reply = response (record { status = 204; json = none; error_message = none })

abbrev refusal : Fetched (Unit {0})
refusal = response (record { status = 403; json = none; error_message = none })

abbrev session : SessionState
session = record {
  csrf_token = "t0k3n";
  client_session = signed_in ana;
  listeners = [];
  heard = [];
}

abbrev menu : Menu
menu = record { pending = false; error_text = ""; replaced_by = none }

stays :
    sign_out true false true false reply "ana" menu session queued_db ≡ (menu, session, queued_db)
unfolding sign_out has_pending_for_owner new_operation
stays = refl

rejected :
    (sign_out true true true false refusal "ana" menu session queued_db).0.error_text
    ≡ "The server rejected the sign-out security check. Your session is still active. Refresh the page and try again."
unfolding sign_out has_pending_for_owner logout csrf_headers api_request new_operation
rejected = refl

sign_out_outcome_example :
    IsOut true true "ana" session queued_db
      (sign_out true true true false reply "ana" menu session queued_db)
    ⊎ IsStill menu session queued_db
        (sign_out true true true false reply "ana" menu session queued_db)
sign_out_outcome_example =
    sign_out_outcome true true true false reply "ana" menu session queued_db refl refl
