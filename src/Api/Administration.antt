-- ===== src/Api/Administration.antt =====
-- The requests of lib/api/administration.ts, and those of lib/api/auth.ts that change nothing in the
-- session.
use Prim.Native.String.{◌++◌}
use koranco.Base.{String, Option, [], ◌∷◌, Result}
use koranco.Client.{post}
use koranco.Session.{SessionState}
use koranco.Types.Server.{Role, manager, supervisor, worker}
use koranco.Api.{ApiRequest, text, read, mutate, order, optional}

abbrev pub role_text : Role → String
role_text manager = "manager"
role_text supervisor = "supervisor"
role_text worker = "worker"

pub data UserAction : Type 0 where
  disable reactivate : UserAction

abbrev pub user_action_text : UserAction → String
user_action_text disable = "disable"
user_action_text reactivate = "reactivate"

abbrev pub user_path : String → String → String
user_path id action = "/api/v1/admin/users/" ++ id ++ "/" ++ action

unfoldable pub list_users : ApiRequest
list_users = read "/api/v1/admin/users" []

unfoldable pub list_security_events : ApiRequest
list_security_events = read "/api/v1/admin/security-events" []

unfoldable pub create_user :
    (login_identifier display_name : String)
    → Role
    → (initial_password : String) → (current_password : Option String) → SessionState
    → Result ApiRequest
unfolding mutate
create_user login name role initial current = mutate post "/api/v1/admin/users" (
    optional "current_password" current (
      ("login_identifier", text login)
      ∷ ("display_name", text name)
      ∷ ("role", text (role_text role))
      ∷ ("initial_password", text initial)
      ∷ []))

unfoldable pub change_role :
    String → Role → (current_password : Option String) → SessionState → Result ApiRequest
unfolding mutate
change_role id role current =
    mutate post (user_path id "role")
      (optional "current_password" current (("role", text (role_text role)) ∷ []))

unfoldable pub set_user_status :
    String → UserAction → (current_password : Option String) → SessionState → Result ApiRequest
unfolding mutate
set_user_status id action current =
    mutate post (user_path id (user_action_text action)) (optional "current_password" current [])

unfoldable pub reset_user_password :
    String
    → (replacement : String) → (current_password : Option String) → SessionState
    → Result ApiRequest
unfolding mutate
reset_user_password id replacement current =
    mutate post (user_path id "reset-password")
      (optional "current_password" current (("replacement_password", text replacement) ∷ []))

unfoldable pub revoke_user_sessions : String → SessionState → Result ApiRequest
unfolding order
revoke_user_sessions id = order (user_path id "sessions/revoke") []

unfoldable pub get_protected_system_status : ApiRequest
get_protected_system_status = read "/api/v1/system/status" []

unfoldable pub change_own_password : (current new : String) → SessionState → Result ApiRequest
unfolding mutate
change_own_password current new =
    mutate post "/api/v1/auth/change-password"
      (("current_password", text current) ∷ ("new_password", text new) ∷ [])
