-- ===== src/Registers/Users/Creation.antt =====
-- `submitCreate` of components/admin/users-admin.tsx, when React has cleared the event's `currentTarget`
-- by the time the server answers.
use koranco.Base.{◌≡◌, refl, true, false, List, [], ◌∷◌, Result, ok, trim}
use koranco.Api.{ApiRequest}
use koranco.Api.Administration.{create_user}
use koranco.HarvestPage.State.{null_if_empty}
use koranco.Registers.Service.{Service, perform}
use koranco.Registers.Users.{
  ApplicationUser, UsersState, NewUser, creation_failed, is_acceptable, submit_create,
}

-- If the event names no form any more when the server has accepted the new account, the page says that
-- the account could not be created, and does not load the list again.
pub create_reported_failed :
    (v : Service) (listed : Result (List ApplicationUser)) (f : NewUser) (s : UsersState)
    (q : ApiRequest)
    → is_acceptable f ≡ true
    → create_user
        (trim f.login_identifier)
        (trim f.display_name)
        f.role
        f.initial_password
        (null_if_empty f.current_password)
        v.session
      ≡ ok q
    → v.fetch q ≡ ok tt
    → submit_create false v listed f s
      ≡ (record s { error_text = creation_failed; message = "" }, q ∷ [])
unfolding submit_create perform
create_reported_failed v listed f s q acceptable built accepted =
    rw (acceptable, built, accepted) refl
