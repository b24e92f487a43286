-- ===== src/Api/Harvest.antt =====
-- The requests of modules/harvest/api.ts.
use Prim.Native.String.{◌++◌}
use koranco.Base.{String, true, Option, [], ◌∷◌, Result}
use koranco.Client.{post, put}
use koranco.Session.{SessionState}
use koranco.Types.Server.{HarvestUnit, fruit_count, kilograms, HarvestRecord}
use koranco.Api.{
  ApiRequest, Fields, text, number, flag, read, mutate, order, set_text, text_or_null,
}

abbrev pub records_path : String
records_path = "/api/v1/harvest-records"

abbrev pub record_path : String → String
record_path id = records_path ++ "/" ++ id

abbrev pub unit_text : HarvestUnit → String
unit_text fruit_count = "fruit_count"
unit_text kilograms = "kilograms"

pub record HarvestValues : Type 0 where
  pub harvest_date : String
  pub farm_unit_id : String
  pub quantity : String
  pub unit : HarvestUnit
  pub notes : Option String

-- The values, and the fields behind them.
abbrev pub with_values : HarvestValues → Fields → Fields
with_values v rest =
    ("harvest_date", text v.harvest_date)
    ∷ ("farm_unit_id", text v.farm_unit_id)
    ∷ ("quantity", text v.quantity)
    ∷ ("unit", text (unit_text v.unit))
    ∷ ("notes", text_or_null v.notes)
    ∷ rest

unfoldable pub list_harvest : (status unit farm_unit_id date_from date_to : String) → ApiRequest
list_harvest status unit farm_unit_id date_from date_to = read records_path (
    set_text "date_to" date_to (
      set_text "date_from" date_from (
        set_text "farm_unit_id" farm_unit_id (set_text "unit" unit (set_text "status" status [])))))

unfoldable pub get_harvest : String → ApiRequest
get_harvest id = read (record_path id) []

unfoldable pub create_harvest : HarvestValues → SessionState → Result ApiRequest
unfolding mutate
create_harvest v = mutate post records_path (with_values v [])

unfoldable pub update_harvest : HarvestRecord → HarvestValues → SessionState → Result ApiRequest
unfolding mutate
update_harvest r v =
    mutate put (record_path r.id ++ "/draft")
      (with_values v (("expected_version", number r.version) ∷ []))

unfoldable pub submit_harvest : String → SessionState → Result ApiRequest
unfolding order
submit_harvest id = order (record_path id ++ "/submit") []

unfoldable pub correct_harvest :
    HarvestRecord → HarvestValues → String → SessionState → Result ApiRequest
unfolding mutate
correct_harvest r v reason = mutate post (record_path r.id ++ "/correct") (
    with_values v (
      ("expected_version", number r.version)
      ∷ ("reason", text reason)
      ∷ ("confirmed", flag true)
      ∷ []))

unfoldable pub harvest_audit : String → ApiRequest
harvest_audit id = read (record_path id ++ "/audit") []
