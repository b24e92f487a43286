-- ===== src/Api/Guarded.antt =====
-- Every request that may change something on the server carries the session's security token.
use koranco.Base.{
  ℕ, String, ◌≡◌, refl, Bool, true, false, Option, none, some, List, [], truthy, Result, ok, err,
  Has, ◌⊎◌, inl, inr, Bool-cases,
}
use koranco.Client.{Method, get, post, put}
use koranco.Session.{SessionState, csrf_headers, no_token}
use koranco.Types.Server.{Role, Worker, FarmUnit, HarvestRecord, DraftEntry}
use koranco.Api.{ApiRequest, Fields, json_type, mutate, order}
use koranco.Api.Attendance
use koranco.Api.Attendance.{Correction}
use koranco.Api.Harvest
use koranco.Api.Harvest.{HarvestValues}
use koranco.Api.Structure
use koranco.Api.Reports
use koranco.Api.Reports.{ReportKind, ReportFilter}
use koranco.Api.Administration
use koranco.Api.Administration.{UserAction}

-- The calls of the pages.
pub data Endpoint : Type 0 where
  list_attendance : (status date_from date_to : String) → Endpoint
  get_attendance submit_attendance discard_attendance attendance_audit create_attendance :
      String → Endpoint
  save_attendance_draft : String → ℕ → List DraftEntry → Endpoint
  correct_attendance : (session_id entry_id : String) → Correction → Endpoint
  list_harvest : (status unit farm_unit_id date_from date_to : String) → Endpoint
  get_harvest submit_harvest harvest_audit : String → Endpoint
  create_harvest : HarvestValues → Endpoint
  update_harvest : HarvestRecord → HarvestValues → Endpoint
  correct_harvest : HarvestRecord → HarvestValues → String → Endpoint
  list_workers : (search status : String) → Endpoint
  save_worker : Option Worker → (code name : String) → Endpoint
  set_worker_status : Worker → String → Endpoint
  worker_audit farm_unit_audit : String → Endpoint
  list_farm_units : (search status unit_type : String) → Endpoint
  save_farm_unit : Option FarmUnit → (code name unit_type : String) → Option String → Endpoint
  set_farm_unit_status : FarmUnit → Endpoint
  get_overview : String → ℕ → ℕ → Endpoint
  get_attendance_report get_harvest_report : ReportFilter → Endpoint
  download_csv : ReportKind → ReportFilter → Endpoint
  list_users list_security_events get_protected_system_status : Endpoint
  create_user : (login name : String) → Role → String → Option String → Endpoint
  change_role : String → Role → Option String → Endpoint
  set_user_status : String → UserAction → Option String → Endpoint
  reset_user_password : String → String → Option String → Endpoint
  revoke_user_sessions : String → Endpoint
  change_own_password : (current new : String) → Endpoint

unfoldable pub request_of : Endpoint → SessionState → Result ApiRequest
request_of (list_attendance a b c) s = ok (Attendance.list_attendance a b c)
request_of (get_attendance id) s = ok (Attendance.get_attendance id)
request_of (submit_attendance id) s = Attendance.submit_attendance id s
request_of (discard_attendance id) s = Attendance.discard_attendance id s
request_of (attendance_audit id) s = ok (Attendance.attendance_audit id)
request_of (create_attendance d) s = Attendance.create_attendance d s
request_of (save_attendance_draft id v es) s = Attendance.save_attendance_draft id v es s
request_of (correct_attendance a b c) s = Attendance.correct_attendance a b c s
request_of (list_harvest a b c d e) s = ok (Harvest.list_harvest a b c d e)
request_of (get_harvest id) s = ok (Harvest.get_harvest id)
request_of (submit_harvest id) s = Harvest.submit_harvest id s
request_of (harvest_audit id) s = ok (Harvest.harvest_audit id)
request_of (create_harvest v) s = Harvest.create_harvest v s
request_of (update_harvest r v) s = Harvest.update_harvest r v s
request_of (correct_harvest r v reason) s = Harvest.correct_harvest r v reason s
request_of (list_workers a b) s = ok (Structure.list_workers a b)
request_of (save_worker w a b) s = Structure.save_worker w a b s
request_of (set_worker_status w a) s = Structure.set_worker_status w a s
request_of (worker_audit id) s = ok (Structure.worker_audit id)
request_of (farm_unit_audit id) s = ok (Structure.farm_unit_audit id)
request_of (list_farm_units a b c) s = ok (Structure.list_farm_units a b c)
request_of (save_farm_unit u a b c p) s = Structure.save_farm_unit u a b c p s
request_of (set_farm_unit_status u) s = Structure.set_farm_unit_status u s
request_of (get_overview d a b) s = ok (Reports.get_overview d a b)
request_of (get_attendance_report f) s = ok (Reports.get_attendance_report f)
request_of (get_harvest_report f) s = ok (Reports.get_harvest_report f)
request_of (download_csv k f) s = Reports.download_csv k f s
request_of list_users s = ok Administration.list_users
request_of list_security_events s = ok Administration.list_security_events
request_of get_protected_system_status s = ok Administration.get_protected_system_status
request_of (create_user a b r p c) s = Administration.create_user a b r p c s
request_of (change_role id r c) s = Administration.change_role id r c s
request_of (set_user_status id a c) s = Administration.set_user_status id a c s
request_of (reset_user_password id p c) s = Administration.reset_user_password id p c s
request_of (revoke_user_sessions id) s = Administration.revoke_user_sessions id s
request_of (change_own_password a b) s = Administration.change_own_password a b s

-- A read carries no header of its own and no body; any other request carries the token, which is not
-- empty, and names its type exactly when it has a body; without a token there is none.
abbrev pub Guards : SessionState → Method → ApiRequest → Type 0
Guards s get r = (r.headers ≡ []) × (r.body ≡ none)
Guards s _ r =
    (truthy s.csrf_token ≡ true)
    × Has ("X-CSRF-Token", s.csrf_token) r.headers
    × ((r.body ≡ none) ⊎ Has json_type r.headers)

abbrev pub IsGuarded : SessionState → Result ApiRequest → Type 0
IsGuarded s (err e) = (truthy s.csrf_token ≡ false) × (e ≡ no_token)
IsGuarded s (ok r) = Guards s r.method r

abbrev pub is_get : Method → Bool
is_get get = true
is_get _ = false

Guards-of :
    (s : SessionState) (m : Method) (r : ApiRequest)
    → is_get m ≡ false
    → (truthy s.csrf_token ≡ true)
    → Has ("X-CSRF-Token", s.csrf_token) r.headers
    → ((r.body ≡ none) ⊎ Has json_type r.headers)
    → Guards s m r
Guards-of s get r n t h b = cc
Guards-of s post r n t h b = (t, h, b)
Guards-of s put r n t h b = (t, h, b)

mutate-IsGuarded :
    (m : Method) (path : String) (body : Fields) (s : SessionState)
    → is_get m ≡ false
    → IsGuarded s (mutate m path body s)
unfolding mutate csrf_headers
mutate-IsGuarded m path body s n = elim (Bool-cases (truthy s.csrf_token)) [
  | inl t ↦ rw (t, mutate, csrf_headers) (Guards-of s m _ n t (inr (inl refl)) (inr (inl refl)))
  | inr t ↦ rw (t, mutate, csrf_headers) (t, refl)
]

order-IsGuarded :
    (path : String) (query : Fields) (s : SessionState) → IsGuarded s (order path query s)
unfolding order csrf_headers
order-IsGuarded path query s = elim (Bool-cases (truthy s.csrf_token)) [
  | inl t ↦ rw (t, order, csrf_headers) (t, inl refl, inl refl)
  | inr t ↦ rw (t, order, csrf_headers) (t, refl)
]

pub put_or_post-mutates : {A : Type 0} (o : Option A) → is_get (Structure.put_or_post o) ≡ false
put_or_post-mutates none = refl
put_or_post-mutates (some a) = refl

-- Of the calls of the pages, a read carries no header of its own and no body; every other request
-- carries the session's security token, which is not empty, and names the type of its body if it has
-- one; and without a token such a request is refused before anything is sent.
pub request_of-IsGuarded : (e : Endpoint) (s : SessionState) → IsGuarded s (request_of e s)
unfolding request_of Attendance.list_attendance Attendance.get_attendance
    Attendance.submit_attendance Attendance.discard_attendance Attendance.attendance_audit
    Attendance.create_attendance Attendance.save_attendance_draft Attendance.correct_attendance
    Harvest.list_harvest Harvest.get_harvest Harvest.submit_harvest Harvest.harvest_audit
    Harvest.create_harvest Harvest.update_harvest Harvest.correct_harvest Structure.list_workers
    Structure.save_worker Structure.set_worker_status Structure.worker_audit
    Structure.farm_unit_audit Structure.list_farm_units Structure.save_farm_unit
    Structure.set_farm_unit_status Reports.get_overview Reports.get_attendance_report
    Reports.get_harvest_report Reports.download_csv Administration.list_users
    Administration.list_security_events Administration.get_protected_system_status
    Administration.create_user Administration.change_role Administration.set_user_status
    Administration.reset_user_password Administration.revoke_user_sessions
    Administration.change_own_password
request_of-IsGuarded (list_attendance a b c) s = (refl, refl)
request_of-IsGuarded (get_attendance id) s = (refl, refl)
request_of-IsGuarded (submit_attendance id) s = order-IsGuarded _ _ s
request_of-IsGuarded (discard_attendance id) s = order-IsGuarded _ _ s
request_of-IsGuarded (attendance_audit id) s = (refl, refl)
request_of-IsGuarded (create_attendance d) s = mutate-IsGuarded _ _ _ s refl
request_of-IsGuarded (save_attendance_draft id v es) s = mutate-IsGuarded _ _ _ s refl
request_of-IsGuarded (correct_attendance a b c) s = mutate-IsGuarded _ _ _ s refl
request_of-IsGuarded (list_harvest a b c d e) s = (refl, refl)
request_of-IsGuarded (get_harvest id) s = (refl, refl)
request_of-IsGuarded (submit_harvest id) s = order-IsGuarded _ _ s
request_of-IsGuarded (harvest_audit id) s = (refl, refl)
request_of-IsGuarded (create_harvest v) s = mutate-IsGuarded _ _ _ s refl
request_of-IsGuarded (update_harvest r v) s = mutate-IsGuarded _ _ _ s refl
request_of-IsGuarded (correct_harvest r v reason) s = mutate-IsGuarded _ _ _ s refl
request_of-IsGuarded (list_workers a b) s = (refl, refl)
request_of-IsGuarded (save_worker w a b) s = mutate-IsGuarded _ _ _ s (put_or_post-mutates w)
request_of-IsGuarded (set_worker_status w a) s = mutate-IsGuarded _ _ _ s refl
request_of-IsGuarded (worker_audit id) s = (refl, refl)
request_of-IsGuarded (farm_unit_audit id) s = (refl, refl)
request_of-IsGuarded (list_farm_units a b c) s = (refl, refl)
request_of-IsGuarded (save_farm_unit u a b c p) s = mutate-IsGuarded _ _ _ s (put_or_post-mutates u)
request_of-IsGuarded (set_farm_unit_status u) s = mutate-IsGuarded _ _ _ s refl
request_of-IsGuarded (get_overview d a b) s = (refl, refl)
request_of-IsGuarded (get_attendance_report f) s = (refl, refl)
request_of-IsGuarded (get_harvest_report f) s = (refl, refl)
request_of-IsGuarded (download_csv k f) s = order-IsGuarded _ _ s
request_of-IsGuarded list_users s = (refl, refl)
request_of-IsGuarded list_security_events s = (refl, refl)
request_of-IsGuarded get_protected_system_status s = (refl, refl)
request_of-IsGuarded (create_user a b r p c) s = mutate-IsGuarded _ _ _ s refl
request_of-IsGuarded (change_role id r c) s = mutate-IsGuarded _ _ _ s refl
request_of-IsGuarded (set_user_status id a c) s = mutate-IsGuarded _ _ _ s refl
request_of-IsGuarded (reset_user_password id p c) s = mutate-IsGuarded _ _ _ s refl
request_of-IsGuarded (revoke_user_sessions id) s = order-IsGuarded _ _ s
request_of-IsGuarded (change_own_password a b) s = mutate-IsGuarded _ _ _ s refl
