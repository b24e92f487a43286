-- ===== src/Registers/Workers.antt =====
-- The component WorkerRegister of modules/workers/worker-register.tsx.
use koranco.Base.{
  ◌++◌, ◌∷◌, String, Bool, false, not, ◌||◌, Option, none, some, List, [], truthy, trim,
  if◌then◌else◌, Result, ok, err, Failure,
}
use koranco.Types.Server.{AuthenticatedUser, Worker, RecordStatus, active, inactive, AuditEvent}
use koranco.Offline.Lease.{includes}
use koranco.Api.{ApiRequest}
use koranco.Api.Structure.{list_workers, save_worker, set_worker_status}
use koranco.Registers.Service.{Service, perform, has_status}

-- `editing` is none for `undefined`, and some none for a worker that is not there yet.
pub record WorkersState : Type 0 where
  pub user : Option AuthenticatedUser
  pub workers : Option (List Worker)
  pub search : String
  pub status : String
  pub editing : Option (Option Worker)
  pub history : Option (Worker × List AuditEvent)
  pub message : String
  pub error_text : String

unfoldable pub can_edit : WorkersState → Bool
can_edit s = elim s.user [ none ↦ false | some user ↦ includes user.permissions "workers.create" ]

-- What getCurrentSession comes to.
unfoldable pub check_session : Result AuthenticatedUser → WorkersState → WorkersState
check_session (ok user) s = record s { user = some user }
check_session (err _) s = record s { error_text = "Your session could not be verified." }

abbrev load_message : Failure → String
load_message e =
    if has_status 403 e
    then "You do not have permission to view the worker register."
    else "The worker register could not be loaded."

-- What listWorkers comes to.
unfoldable pub load : (listed : Result (List Worker)) → WorkersState → WorkersState
load (ok items) s = record s { workers = some items }
load (err e) s = record s { error_text = load_message e }

abbrev pub edited_worker : Option (Option Worker) → Option Worker
edited_worker none = none
edited_worker (some w) = w

abbrev pub saved_message : Option Worker → String
saved_message none = "Worker added to the register."
saved_message (some _) = "Worker updated."

abbrev save_failure : Failure → String
save_failure e =
    if has_status 409 e
    then "A worker with this code already exists."
    else "The worker could not be saved. Your entries have been preserved."

abbrev pub saved :
    Result (List Worker)
    → WorkersState
    → Result (Unit {0}) × List ApiRequest
    → WorkersState × List ApiRequest
saved listed s (err e, sent) = (record s { error_text = save_failure e }, sent)
saved listed s (ok _, sent) = (
  load listed (record s { editing = none; message = saved_message (edited_worker s.editing) }),
  sent ++ list_workers s.search s.status ∷ [],
)

-- The second part of each result is what was sent, in its order: `load` asks for the list again.
unfoldable pub submit :
    Service
    → Result (List Worker)
    → (worker_code full_name : String) → WorkersState
    → WorkersState × List ApiRequest
unfolding perform load
submit v listed worker_code full_name s =
    if not (truthy (trim worker_code)) || not (truthy (trim full_name))
    then (record s { error_text = "Worker code and full name are required." }, [])
    else saved listed s (
        perform v
          (save_worker (edited_worker s.editing) (trim worker_code) (trim full_name) v.session))

abbrev pub lifecycle_message : RecordStatus → String
lifecycle_message active = "Worker deactivated."
lifecycle_message inactive = "Worker reactivated."

abbrev pub status_changed :
    Result (List Worker)
    → Worker
    → WorkersState
    → Result (Unit {0}) × List ApiRequest
    → WorkersState × List ApiRequest
status_changed listed w s (err _, sent) =
    (record s { error_text = "The worker status could not be changed." }, sent)
status_changed listed w s (ok _, sent) = (
  load listed (record s { message = lifecycle_message w.status }),
  sent ++ list_workers s.search s.status ∷ [],
)

-- `confirmed` is the answer to the question that the browser asks.
unfoldable pub lifecycle :
    (confirmed : Bool)
    → Service
    → Result (List Worker)
    → Worker
    → WorkersState
    → WorkersState × List ApiRequest
unfolding perform load
lifecycle confirmed v listed w s =
    if not confirmed
    then (s, [])
    else status_changed listed w s (perform v (set_worker_status w "" v.session))

-- The button for the history; a failure is not handled.
unfoldable pub show_history : Result (List AuditEvent) → Worker → WorkersState → WorkersState
show_history (ok items) w s = record s { history = some (w, items) }
show_history (err _) w s = s
