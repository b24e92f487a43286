-- ===== src/Registers/FarmStructure.antt =====
-- The component FarmStructureRegister of modules/farm-structure/farm-structure-register.tsx.
use koranco.Base.{
  String, Bool, false, not, ◌||◌, ◌==◌, Option, none, some, List, [], ◌∷◌, ◌++◌, truthy, trim,
  if◌then◌else◌, Result, ok, err, Failure,
}
use koranco.Types.Server.{AuthenticatedUser, FarmUnit, RecordStatus, active, inactive, AuditEvent}
use koranco.Offline.Lease.{includes}
use koranco.Api.{ApiRequest}
use koranco.Api.Structure.{list_farm_units, save_farm_unit, set_farm_unit_status}
use koranco.HarvestPage.State.{null_if_empty}
use koranco.Registers.Service.{Service, perform, has_status}

-- `editing` is none for `undefined`, and some none for a unit that is not there yet.
pub record UnitsState : Type 0 where
  pub user : Option AuthenticatedUser
  pub units : Option (List FarmUnit)
  pub search : String
  pub status : String
  pub unit_type : String
  pub editing : Option (Option FarmUnit)
  pub history : Option (FarmUnit × List AuditEvent)
  pub message : String
  pub error_text : String

unfoldable pub can_edit : UnitsState → Bool
can_edit s = elim s.user [
  | none ↦ false
  | some user ↦ includes user.permissions "farm_structure.create"
]

-- What getCurrentSession comes to.
unfoldable pub check_session : Result AuthenticatedUser → UnitsState → UnitsState
check_session (ok user) s = record s { user = some user }
check_session (err _) s = record s { error_text = "Your session could not be verified." }

abbrev load_message : Failure → String
load_message e =
    if has_status 403 e
    then "You do not have permission to view farm structure."
    else "Farm structure could not be loaded."

-- What listFarmUnits comes to.
unfoldable pub load : (listed : Result (List FarmUnit)) → UnitsState → UnitsState
load (ok items) s = record s { units = some items }
load (err e) s = record s { error_text = load_message e }

-- The fields of the form, as `FormData` has them.
pub record UnitForm : Type 0 where
  pub code : String
  pub name : String
  pub unit_type : String
  pub parent_id : String

abbrev pub edited_unit : Option (Option FarmUnit) → Option FarmUnit
edited_unit none = none
edited_unit (some u) = u

abbrev pub saved_message : Option FarmUnit → String
saved_message none = "Farm unit added."
saved_message (some _) = "Farm unit updated."

abbrev save_failure : Failure → String
save_failure e =
    if has_status 409 e
    then "A farm unit with this code already exists."
    else if has_status 422 e
    then "The selected parent unit is unavailable or would create an invalid hierarchy."
    else "The farm unit could not be saved. Your entries have been preserved."

abbrev pub saved :
    Result (List FarmUnit)
    → UnitsState
    → Result (Unit {0}) × List ApiRequest
    → UnitsState × List ApiRequest
saved listed s (err e, sent) = (record s { error_text = save_failure e }, sent)
saved listed s (ok _, sent) = (
  load listed (record s { editing = none; message = saved_message (edited_unit s.editing) }),
  sent ++ list_farm_units s.search s.status s.unit_type ∷ [],
)

-- The second part of each result is what was sent, in its order: `load` asks for the list again.
unfoldable pub submit :
    Service → Result (List FarmUnit) → UnitForm → UnitsState → UnitsState × List ApiRequest
unfolding perform load
submit v listed f s =
    if not (truthy (trim f.code)) || not (truthy (trim f.name))
    then (record s { error_text = "Code and name are required." }, [])
    else saved listed s (
        perform v (
          save_farm_unit (edited_unit s.editing) (trim f.code) (trim f.name) f.unit_type
            (null_if_empty f.parent_id) v.session))

abbrev pub lifecycle_message : RecordStatus → String
lifecycle_message active = "Farm unit deactivated."
lifecycle_message inactive = "Farm unit reactivated."

abbrev pub status_changed :
    Result (List FarmUnit)
    → FarmUnit
    → UnitsState
    → Result (Unit {0}) × List ApiRequest
    → UnitsState × List ApiRequest
status_changed listed u s (err _, sent) =
    (record s { error_text = "The farm unit status could not be changed." }, sent)
status_changed listed u s (ok _, sent) = (
  load listed (record s { message = lifecycle_message u.status }),
  sent ++ list_farm_units s.search s.status s.unit_type ∷ [],
)

-- `confirmed` is the answer to the question that the browser asks.
unfoldable pub lifecycle :
    (confirmed : Bool)
    → Service
    → Result (List FarmUnit)
    → FarmUnit
    → UnitsState
    → UnitsState × List ApiRequest
unfolding perform load
lifecycle confirmed v listed u s =
    if not confirmed
    then (s, [])
    else status_changed listed u s (perform v (set_farm_unit_status u v.session))

abbrev named : String → List FarmUnit → String
named id [] = "Unknown parent"
named id (u ∷ us) = if u.id == id then u.name else named id us

abbrev name_in : String → Option (List FarmUnit) → String
name_in id none = "Unknown parent"
name_in id (some us) = named id us

-- The name of a parent; a falsy id has none.
unfoldable pub parent_name : Option String → UnitsState → String
parent_name none s = "—"
parent_name (some id) s = if truthy id then name_in id s.units else "—"
