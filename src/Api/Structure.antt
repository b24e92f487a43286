-- ===== src/Api/Structure.antt =====
-- The requests of modules/workers/api.ts and modules/farm-structure/api.ts.
use Prim.Native.String.{◌++◌}
use koranco.Base.{String, Option, none, some, [], ◌∷◌, truthy, if◌then◌else◌, Result}
use koranco.Client.{Method, post, put}
use koranco.Session.{SessionState}
use koranco.Types.Server.{Worker, FarmUnit, RecordStatus, active, inactive}
use koranco.Api.{ApiRequest, text, null, read, mutate, set_text, text_or_null}

abbrev pub action_of : RecordStatus → String
action_of active = "deactivate"
action_of inactive = "reactivate"

abbrev pub at_or {ℓ} : {A : Type ℓ} → (A → String) → String → Option A → String
at_or id path none = path
at_or id path (some a) = path ++ "/" ++ id a

abbrev pub put_or_post {ℓ} : {A : Type ℓ} → Option A → Method
put_or_post none = post
put_or_post (some _) = put

unfoldable pub list_workers : (search status : String) → ApiRequest
list_workers search status =
    read "/api/v1/workers" (set_text "status" status (set_text "search" search []))

unfoldable pub save_worker :
    Option Worker → (worker_code full_name : String) → SessionState → Result ApiRequest
unfolding mutate
save_worker w code name =
    mutate (put_or_post w) (at_or (λ x. x.id) "/api/v1/workers" w)
      (("worker_code", text code) ∷ ("full_name", text name) ∷ [])

-- `reason || null`
unfoldable pub set_worker_status : Worker → (reason : String) → SessionState → Result ApiRequest
unfolding mutate
set_worker_status w reason =
    mutate post ("/api/v1/workers/" ++ w.id ++ "/" ++ action_of w.status)
      (("reason", if truthy reason then text reason else null) ∷ [])

unfoldable pub worker_audit : String → ApiRequest
worker_audit id = read ("/api/v1/workers/" ++ id ++ "/audit") []

unfoldable pub list_farm_units : (search status unit_type : String) → ApiRequest
list_farm_units search status unit_type =
    read "/api/v1/farm-units"
      (set_text "unit_type" unit_type (set_text "status" status (set_text "search" search [])))

unfoldable pub save_farm_unit :
    Option FarmUnit
    → (code name unit_type : String) → Option String
    → SessionState
    → Result ApiRequest
unfolding mutate
save_farm_unit u code name unit_type parent_id =
    mutate (put_or_post u) (at_or (λ x. x.id) "/api/v1/farm-units" u) (
      ("code", text code)
      ∷ ("name", text name)
      ∷ ("unit_type", text unit_type)
      ∷ ("parent_id", text_or_null parent_id)
      ∷ [])

unfoldable pub set_farm_unit_status : FarmUnit → SessionState → Result ApiRequest
unfolding mutate
set_farm_unit_status u = mutate post ("/api/v1/farm-units/" ++ u.id ++ "/" ++ action_of u.status) []

unfoldable pub farm_unit_audit : String → ApiRequest
farm_unit_audit id = read ("/api/v1/farm-units/" ++ id ++ "/audit") []
