-- ===== src/Tests/Registers.antt =====
-- Examples for the registers.
use koranco.Base.{◌≡◌, refl, false, some, none, [], ◌∷◌, ok, err, api_error, trim, utf16_length}
use koranco.Types.Server.{supervisor}
use koranco.Session.{SessionState, ClientSession}
use koranco.Client.{post}
use koranco.Api.{ApiRequest, json_type, text}
use koranco.Api.Structure.{save_worker}
use koranco.Api.Administration.{create_user}
use koranco.Registers.Service.{Service}
use koranco.Registers.Users as U
use koranco.Registers.Workers as W

abbrev session : SessionState
session = record {
  csrf_token = "t1";
  client_session = ClientSession.unknown;
  listeners = [];
  heard = [];
}

abbrev accepting : Service
accepting = record { session = session; fetch = λ q. ok tt }

abbrev refusing : Service
refusing = record { session = session; fetch = λ q. err (api_error "Conflict" 409) }

abbrev users_page : U.UsersState
users_page = record {
  users = some [];
  message = "Sessions revoked.";
  error_text = "";
  reset_target = none;
  reauth_password = "";
}

abbrev ben : U.NewUser
ben = record {
  login_identifier = " ben ";
  display_name = "Ben";
  role = supervisor;
  initial_password = "correct horse";
  current_password = "";
}

abbrev workers_page : W.WorkersState
workers_page = record {
  user = none;
  workers = some [];
  search = "";
  status = "";
  editing = some none;
  history = none;
  message = "";
  error_text = "";
}

duplicate :
    (W.submit refusing (ok []) " W1 " "Eva" workers_page).0.error_text
    ≡ "A worker with this code already exists."
unfolding W.submit trim save_worker
duplicate = refl

added :
    (W.submit accepting (ok []) " W1 " "Eva" workers_page).0.message
    ≡ "Worker added to the register."
unfolding W.submit trim save_worker
added = refl

abbrev creation : ApiRequest
creation = record {
  method = post;
  path = "/api/v1/admin/users";
  query = [];
  headers = json_type ∷ ("X-CSRF-Token", "t1") ∷ [];
  body = some (
      ("login_identifier", text "ben")
      ∷ ("display_name", text "Ben")
      ∷ ("role", text "supervisor")
      ∷ ("initial_password", text "correct horse")
      ∷ []);
}

-- React has cleared the event's form when the server answers.
form_cleared :
    U.submit_create false accepting (ok []) ben users_page
    ≡ (record users_page { error_text = U.creation_failed; message = "" }, creation ∷ [])
unfolding U.submit_create U.is_acceptable create_user trim utf16_length
form_cleared = refl
