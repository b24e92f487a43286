-- ===== src/Registers/Actions.antt =====
-- What the handlers of the registers send, and what they announce.
use mathlib.Core.Path.{subst}
use koranco.Base.{
  String, ◌≡◌, ◌⊎◌, refl, sym, inl, inr, Bool, true, false, Bool-cases, none, List, [], ◌∷◌, ◌++◌,
  Has, truthy, Result, ok, err, Failure,
}
use koranco.Types.Server.{Role, Worker, FarmUnit}
use koranco.Client.{Method}
use koranco.Session.{SessionState, csrf_headers}
use koranco.Api.{ApiRequest, Fields, json_type, mutate, order}
use koranco.Api.Guarded.{is_get}
use koranco.Registers.Service.{Service, perform}
use koranco.Registers.Users as U
use koranco.Registers.Workers as W
use koranco.Registers.FarmStructure as F

-- A handler, with its page and what the user and the lists answer.
pub data Action : Type 0 where
  create : Bool → Result (List U.ApplicationUser) → U.NewUser → U.UsersState → Action
  change_role :
      Bool → Result (List U.ApplicationUser) → U.ApplicationUser → Role → U.UsersState → Action
  change_status : Bool → Result (List U.ApplicationUser) → U.ApplicationUser → U.UsersState → Action
  reset_password :
      Result (List U.ApplicationUser) → (replacement current : String) → U.UsersState → Action
  revoke : U.ApplicationUser → U.UsersState → Action
  save_worker : Result (List Worker) → (code name : String) → W.WorkersState → Action
  worker_status : Bool → Result (List Worker) → Worker → W.WorkersState → Action
  save_unit : Result (List FarmUnit) → F.UnitForm → F.UnitsState → Action
  unit_status : Bool → Result (List FarmUnit) → FarmUnit → F.UnitsState → Action

-- The message that the page shows before the handler.
abbrev pub message_before : Action → String
message_before (create a l f s) = s.message
message_before (change_role c l u r s) = s.message
message_before (change_status c l u s) = s.message
message_before (reset_password l p c s) = s.message
message_before (revoke u s) = s.message
message_before (save_worker l c n s) = s.message
message_before (worker_status c l w s) = s.message
message_before (save_unit l f s) = s.message
message_before (unit_status c l u s) = s.message

abbrev pub users_view : U.UsersState × List ApiRequest → String × List ApiRequest
users_view (s, sent) = (s.message, sent)

abbrev pub workers_view : W.WorkersState × List ApiRequest → String × List ApiRequest
workers_view (s, sent) = (s.message, sent)

abbrev pub units_view : F.UnitsState × List ApiRequest → String × List ApiRequest
units_view (s, sent) = (s.message, sent)

-- The message after the handler, and what it sent.
unfoldable pub outcome : Action → Service → String × List ApiRequest
outcome (create a l f s) v = users_view (U.submit_create a v l f s)
outcome (change_role c l u r s) v = users_view (U.role_change c v l u r s)
outcome (change_status c l u s) v = users_view (U.status_change c v l u s)
outcome (reset_password l p c s) v = users_view (U.submit_reset v l p c s)
outcome (revoke u s) v = users_view (U.revoke_sessions v u s)
outcome (save_worker l c n s) v = workers_view (W.submit v l c n s)
outcome (worker_status c l w s) v = workers_view (W.lifecycle c v l w s)
outcome (save_unit l f s) v = units_view (F.submit v l f s)
outcome (unit_status c l u s) v = units_view (F.lifecycle c v l u s)

-- A request that changes something on the server, with the session's token.
abbrev pub Changes : SessionState → ApiRequest → Type 0
Changes s q =
    (is_get q.method ≡ false)
    × (truthy s.csrf_token ≡ true)
    × Has ("X-CSRF-Token", s.csrf_token) q.headers
    × ((q.body ≡ none) ⊎ Has json_type q.headers)

-- A request that only reads.
abbrev pub Reads : ApiRequest → Type 0
Reads q = (is_get q.method ≡ true) × (q.headers ≡ []) × (q.body ≡ none)

-- What a handler of the page that showed `before` has come to.
pub data IsHonest (v : Service) (before : String) (r : String × List ApiRequest) : Type 0 where
  -- Nothing was sent.
  nothing_sent : r.1 ≡ [] → (r.0 ≡ before) ⊎ (r.0 ≡ "") → IsHonest v before r
  -- One change was sent and not accepted, and no more.
  refused :
      (q : ApiRequest) (e : Failure)
      → Changes v.session q
      → v.fetch q ≡ err e
      → r.1 ≡ q ∷ []
      → (r.0 ≡ before) ⊎ (r.0 ≡ "")
      → IsHonest v before r
  -- One change was sent and accepted; after it the list was read, or no more was sent.
  accepted :
      (q : ApiRequest)
      → Changes v.session q
      → v.fetch q ≡ ok tt
      → (r.1 ≡ q ∷ []) ⊎ ((l : ApiRequest) × Reads l × (r.1 ≡ q ∷ l ∷ []))
      → IsHonest v before r

-- A request of the API is a change with the session's token, or is refused without one.
abbrev pub IsChange : SessionState → Result ApiRequest → Type 0
IsChange s (err e) = truthy s.csrf_token ≡ false
IsChange s (ok q) = Changes s q

pub mutate-IsChange :
    (m : Method) (path : String) (body : Fields) (s : SessionState)
    → is_get m ≡ false
    → IsChange s (mutate m path body s)
unfolding mutate csrf_headers
mutate-IsChange m path body s n = elim (Bool-cases (truthy s.csrf_token)) [
  | inl t ↦ rw (t, mutate, csrf_headers) (n, t, inr (inl refl), inr (inl refl))
  | inr t ↦ rw (t, mutate, csrf_headers) t
]

pub order-IsChange :
    (path : String) (query : Fields) (s : SessionState) → IsChange s (order path query s)
unfolding order csrf_headers
order-IsChange path query s = elim (Bool-cases (truthy s.csrf_token)) [
  | inl t ↦ rw (t, order, csrf_headers) (refl, t, inl refl, inl refl)
  | inr t ↦ rw (t, order, csrf_headers) t
]

-- What a handler adds to what was sent once its request has been accepted.
abbrev pub Follows : List ApiRequest → List ApiRequest → Type 0
Follows sent all = (all ≡ sent) ⊎ ((l : ApiRequest) × Reads l × (all ≡ sent ++ l ∷ []))

-- How a handler goes on with the outcome of its request: a failure changes no message.
pub performed :
    (v : Service) (before : String) (req : Result ApiRequest)
    (view : Result (Unit {0}) × List ApiRequest → String × List ApiRequest)
    → IsChange v.session req
    → ((e : Failure) (sent : List ApiRequest)
        → ((view (err e, sent)).1 ≡ sent)
          × (((view (err e, sent)).0 ≡ before) ⊎ ((view (err e, sent)).0 ≡ "")))
    → ((sent : List ApiRequest) → Follows sent (view (ok tt, sent)).1)
    → IsHonest v before (view (perform v req))
unfolding perform
performed v before (err e) view change fails follows =
    let (sent, message) = fails e [] in nothing_sent sent message
performed v before (ok q) view change fails follows = by_answer (v.fetch q) refl
  where
    by_answer :
        (a : Result (Unit {0})) → v.fetch q ≡ a → IsHonest v before (view (v.fetch q, q ∷ []))
    by_answer (err e) h =
        let (sent, message) = fails e (q ∷ []) in
        subst (λ a. IsHonest v before (view (a, q ∷ []))) (sym h)
          (refused q e change h sent message)
    by_answer (ok x) h =
        subst (λ a. IsHonest v before (view (a, q ∷ []))) (sym h)
          (accepted q change h (follows (q ∷ [])))
