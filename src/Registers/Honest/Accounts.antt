-- ===== src/Registers/Honest/Accounts.antt =====
-- The handlers of components/admin/users-admin.tsx announce what the server accepted.
use koranco.Base.{
  String, ◌≡◌, refl, inl, inr, Bool, true, false, not, List, Result, ok, err, Failure, ltb, trim,
  utf16_length, if_either, option_either,
}
use koranco.Types.Server.{Role}
use koranco.Api.{ApiRequest}
use koranco.Api.Administration
use koranco.Api.Administration.{list_users}
use koranco.Client.{post}
use koranco.HarvestPage.State.{null_if_empty}
use koranco.Registers.Service.{Service, perform}
use koranco.Registers.Users as U
use koranco.Registers.Actions.{
  create, change_role, change_status, reset_password, revoke, users_view, outcome, IsHonest,
  performed, Follows, IsChange, nothing_sent, mutate-IsChange, order-IsChange,
}

pub create-IsHonest :
    (a : Bool) (l : Result (List U.ApplicationUser)) (f : U.NewUser) (s : U.UsersState)
    (v : Service)
    → IsHonest v s.message (outcome (create a l f s) v)
unfolding outcome U.submit_create list_users
create-IsHonest a l f s v =
    if_either (λ (r : U.UsersState × List ApiRequest). IsHonest v s.message (users_view r))
      (not (U.is_acceptable f)) _ _ (nothing_sent refl (inr refl))
      (performed v s.message
        (Administration.create_user (trim f.login_identifier) (trim f.display_name) f.role
          f.initial_password (null_if_empty f.current_password) v.session)
        (λ r. users_view (U.created a l (record s { error_text = ""; message = "" }) r))
        (unfold Administration.create_user in mutate-IsChange post _ _ v.session refl)
        (λ e sent.
          let (same, message) = fails a l (record s { error_text = ""; message = "" }) e sent in
          (same, inr message))
        (follows a l (record s { error_text = ""; message = "" })))
  where
    fails :
        (a : Bool) (l : Result (List U.ApplicationUser)) (s : U.UsersState) (e : Failure)
        (sent : List ApiRequest)
        → ((users_view (U.created a l s (err e, sent))).1 ≡ sent)
          × ((users_view (U.created a l s (err e, sent))).0 ≡ s.message)
    fails true l s e sent = (refl, refl)
    fails false l s e sent = (refl, refl)

    follows :
        (a : Bool) (l : Result (List U.ApplicationUser)) (s : U.UsersState) (sent : List ApiRequest)
        → Follows sent (users_view (U.created a l s (ok tt, sent))).1
    follows true l s sent = inr (list_users, (refl, refl, refl), refl)
    follows false l s sent = inl refl

changed-IsHonest :
    (message failure : String) (l : Result (List U.ApplicationUser)) (s : U.UsersState)
    (v : Service) (req : Result ApiRequest)
    → IsChange v.session req
    → IsHonest v s.message (users_view (U.changed message failure l s (perform v req)))
unfolding list_users
changed-IsHonest message failure l s v req change =
    performed v s.message req (λ r. users_view (U.changed message failure l s r)) change
      (λ e sent. (refl, inl refl)) (λ sent. inr (list_users, (refl, refl, refl), refl))

pub change_role-IsHonest :
    (c : Bool) (l : Result (List U.ApplicationUser)) (u : U.ApplicationUser) (r : Role)
    (s : U.UsersState) (v : Service)
    → IsHonest v s.message (outcome (change_role c l u r s) v)
unfolding outcome U.role_change
change_role-IsHonest c l u r s v =
    if_either (λ (x : U.UsersState × List ApiRequest). IsHonest v s.message (users_view x)) (not c)
      _ _ (nothing_sent refl (inl refl))
      (changed-IsHonest _ _ l s v
        (Administration.change_role u.id r (null_if_empty s.reauth_password) v.session)
        (unfold Administration.change_role in mutate-IsChange post _ _ v.session refl))

pub change_status-IsHonest :
    (c : Bool) (l : Result (List U.ApplicationUser)) (u : U.ApplicationUser) (s : U.UsersState)
    (v : Service)
    → IsHonest v s.message (outcome (change_status c l u s) v)
unfolding outcome U.status_change
change_status-IsHonest c l u s v =
    let action = U.action_for u.status in
    let password = null_if_empty s.reauth_password in
    if_either (λ (x : U.UsersState × List ApiRequest). IsHonest v s.message (users_view x)) (not c)
      _ _ (nothing_sent refl (inl refl))
      (changed-IsHonest _ _ l s v (Administration.set_user_status u.id action password v.session)
        (unfold Administration.set_user_status in mutate-IsChange post _ _ v.session refl))

reset_for-IsHonest :
    (l : Result (List U.ApplicationUser)) (p c : String) (s : U.UsersState) (v : Service)
    (target : U.ApplicationUser)
    → IsHonest v s.message (users_view (U.reset_for v l p c s target))
unfolding U.reset_for list_users
reset_for-IsHonest l p c s v target =
    if_either (λ (x : U.UsersState × List ApiRequest). IsHonest v s.message (users_view x))
      (ltb (utf16_length p) 12) _ _ (nothing_sent refl (inl refl))
      (performed v s.message
        (Administration.reset_user_password target.id p (null_if_empty c) v.session)
        (λ r. users_view (U.password_reset l s r))
        (unfold Administration.reset_user_password in mutate-IsChange post _ _ v.session refl)
        (λ e sent. (refl, inl refl)) (λ sent. inr (list_users, (refl, refl, refl), refl)))

pub reset-IsHonest :
    (l : Result (List U.ApplicationUser)) (p c : String) (s : U.UsersState) (v : Service)
    → IsHonest v s.message (outcome (reset_password l p c s) v)
unfolding outcome U.submit_reset
reset-IsHonest l p c s v =
    option_either (λ (x : U.UsersState × List ApiRequest). IsHonest v s.message (users_view x))
      s.reset_target _ (λ target. U.reset_for v l p c s target) (nothing_sent refl (inl refl))
      (reset_for-IsHonest l p c s v)

pub revoke-IsHonest :
    (u : U.ApplicationUser) (s : U.UsersState) (v : Service)
    → IsHonest v s.message (outcome (revoke u s) v)
unfolding outcome U.revoke_sessions
revoke-IsHonest u s v =
    performed v s.message (Administration.revoke_user_sessions u.id v.session)
      (λ r. users_view (U.revoked s r))
      (unfold Administration.revoke_user_sessions in order-IsChange _ _ v.session)
      (λ e sent. (refl, inl refl)) (λ sent. inl refl)
