-- ===== src/Registers/Users.antt =====
-- The component UsersAdmin of components/admin/users-admin.tsx.
pub mod Creation
use koranco.Base.{
  ℕ, String, Bool, true, false, not, ◌&&◌, ◌||◌, Option, none, some, List, [], ◌∷◌, ◌++◌, ltb,
  truthy, trim, utf16_length, if◌then◌else◌, Result, ok, err, Failure, api_error,
}
use koranco.Types.Server.{Instant, Role}
use koranco.Api.{ApiRequest}
use koranco.Api.Administration.{
  UserAction, disable, reactivate, list_users, create_user, change_role, set_user_status,
  reset_user_password, revoke_user_sessions,
}
use koranco.HarvestPage.State.{null_if_empty}
use koranco.Registers.Service.{Service, perform}

pub data UserStatus : Type 0 where
  active disabled : UserStatus

pub record ApplicationUser : Type 0 where
  pub id : String
  pub login_identifier : String
  pub display_name : String
  pub role : Role
  pub status : UserStatus
  pub password_change_required : Bool
  pub created_at : Instant

pub record UsersState : Type 0 where
  pub users : Option (List ApplicationUser)
  pub message : String
  pub error_text : String
  pub reset_target : Option ApplicationUser
  pub reauth_password : String

-- The fields of the form for a new account.
pub record NewUser : Type 0 where
  pub login_identifier : String
  pub display_name : String
  pub role : Role
  pub initial_password : String
  pub current_password : String

-- `listed` is what listUsers comes to.
unfoldable pub load : (listed : Result (List ApplicationUser)) → UsersState → UsersState
load (ok items) s = record s { users = some items }
load (err _) s = record s { error_text = "Users could not be loaded." }

abbrev pub creation_failed : String
creation_failed = "Account could not be created."

abbrev pub create_message : Failure → String
create_message (api_error m _) = m
create_message _ = creation_failed

abbrev pub account_created : String
account_created =
    "Account created. Give the initial password to the user through an appropriate private channel; it will not be shown again."

unfoldable pub is_acceptable : NewUser → Bool
is_acceptable f =
    truthy (trim f.login_identifier)
    && not (ltb (utf16_length (trim f.display_name)) 2)
    && not (ltb (utf16_length f.initial_password) 12)

-- `attached` says whether the event still names its form once the server has answered.
abbrev pub created :
    (attached : Bool)
    → Result (List ApplicationUser)
    → UsersState
    → Result (Unit {0}) × List ApiRequest
    → UsersState × List ApiRequest
created attached listed s (err e, sent) = (record s { error_text = create_message e }, sent)
created true listed s (ok _, sent) =
    (load listed (record s { message = account_created }), sent ++ list_users ∷ [])
created false listed s (ok _, sent) = (record s { error_text = creation_failed }, sent)

-- The second part of each result is what was sent, in its order: `load` asks for the list again.
unfoldable pub submit_create :
    (attached : Bool)
    → Service
    → Result (List ApplicationUser)
    → NewUser
    → UsersState
    → UsersState × List ApiRequest
unfolding is_acceptable perform load
submit_create attached v listed f s =
    let cleared = record s { error_text = ""; message = "" } in
    if not (is_acceptable f)
    then (
      record cleared {
        error_text =
            "Enter a valid login, display name, and an initial password of at least 12 characters.";
      },
      [],
    )
    else created attached listed cleared (
        perform v (
          create_user (trim f.login_identifier) (trim f.display_name) f.role f.initial_password
            (null_if_empty f.current_password) v.session))

-- A call that succeeds clears the password, sets a message and loads the list again.
abbrev pub changed :
    (message failure : String)
    → Result (List ApplicationUser)
    → UsersState
    → Result (Unit {0}) × List ApiRequest
    → UsersState × List ApiRequest
changed message failure listed s (err _, sent) = (record s { error_text = failure }, sent)
changed message failure listed s (ok _, sent) =
    (load listed (record s { message = message; reauth_password = "" }), sent ++ list_users ∷ [])

-- `confirmed` is the answer to the question that the browser asks.
unfoldable pub role_change :
    (confirmed : Bool)
    → Service
    → Result (List ApplicationUser)
    → ApplicationUser
    → Role
    → UsersState
    → UsersState × List ApiRequest
unfolding perform load
role_change confirmed v listed user role s =
    if not confirmed
    then (s, [])
    else changed "Role changed and existing sessions revoked."
        "The role could not be changed. Sensitive Manager changes may require a recent sign-in."
        listed s (perform v (change_role user.id role (null_if_empty s.reauth_password) v.session))

abbrev pub action_for : UserStatus → UserAction
action_for active = disable
action_for disabled = reactivate

abbrev pub done_message : UserAction → String
done_message disable = "Account disabled; sessions revoked."
done_message reactivate = "Account reactivated."

unfoldable pub status_change :
    (confirmed : Bool)
    → Service
    → Result (List ApplicationUser)
    → ApplicationUser
    → UsersState
    → UsersState × List ApiRequest
unfolding perform load
status_change confirmed v listed user s =
    let action = action_for user.status in
    if not confirmed
    then (s, [])
    else changed (done_message action) "The account status could not be changed." listed s
        (perform v (set_user_status user.id action (null_if_empty s.reauth_password) v.session))

abbrev pub password_reset :
    Result (List ApplicationUser)
    → UsersState
    → Result (Unit {0}) × List ApiRequest
    → UsersState × List ApiRequest
password_reset listed s (err _, sent) =
    (record s { error_text = "The password could not be reset." }, sent)
password_reset listed s (ok _, sent) = (
  load listed (record s {
    reset_target = none;
    message =
        "Password reset. Existing sessions were revoked and a password change is required at next sign-in.";
  }),
  sent ++ list_users ∷ [],
)

unfoldable pub reset_for :
    Service
    → Result (List ApplicationUser)
    → (replacement current : String) → UsersState
    → ApplicationUser
    → UsersState × List ApiRequest
unfolding perform load
reset_for v listed replacement current s target =
    if ltb (utf16_length replacement) 12
    then (record s { error_text = "The replacement password must be at least 12 characters." }, [])
    else password_reset listed s
        (perform v (reset_user_password target.id replacement (null_if_empty current) v.session))

unfoldable pub submit_reset :
    Service
    → Result (List ApplicationUser)
    → (replacement current : String) → UsersState
    → UsersState × List ApiRequest
unfolding reset_for
submit_reset v listed replacement current s = elim s.reset_target [
  | none ↦ (s, [])
  | some target ↦ reset_for v listed replacement current s target
]

abbrev pub revoked : UsersState → Result (Unit {0}) × List ApiRequest → UsersState × List ApiRequest
revoked s (err _, sent) = (s, sent)
revoked s (ok _, sent) = (record s { message = "Sessions revoked." }, sent)

unfoldable pub revoke_sessions :
    Service → ApplicationUser → UsersState → UsersState × List ApiRequest
unfolding perform
revoke_sessions v user s = revoked s (perform v (revoke_user_sessions user.id v.session))
