-- ===== src/HarvestPage/Correction.antt =====
-- The review of the form and the correction of a record in modules/harvest/harvest-workspace.tsx.
use koranco.Base.{String, Bool, true, false, not, Option, none, some, truthy, trim, if◌then◌else◌}
use koranco.Types.Server.{HarvestRecord}
use koranco.HarvestPage.State.{HarvestState, values, validate}
use koranco.Api.Harvest.{HarvestValues}
use koranco.HarvestPage.Handlers.{Replies, show_record}

-- The button behind the form.
unfoldable pub open_review : HarvestState → HarvestState
unfolding validate
open_review s =
    let validation = validate s in
    if truthy validation
    then record s { error_text = validation }
    else record s { reviewing = true }

-- The arguments of correctHarvest.
abbrev pub Correction : Type 0
Correction = HarvestRecord × HarvestValues × String

-- `confirmed` is the answer to the question that the browser asks, and `replies` hold the corrected
-- record. The second part is the correction that is sent, if one is.
unfoldable pub correction :
    (confirmed : Bool) → Replies → HarvestState → HarvestState × Option Correction
unfolding validate values show_record
correction confirmed replies s = elim s.official [
  | none ↦ (s, none)
  | some r ↦
      let validation = validate s in
      let noted = λ (x : HarvestState). record x {
        reason = "";
        correcting = false;
        success = "Harvest correction recorded.";
      } in
      if truthy validation
      then (record s { error_text = validation }, none)
      else if not (truthy (trim s.reason))
      then (record s { error_text = "Enter a correction reason." }, none)
      else if not confirmed
      then (s, none)
      else (
        record (show_record replies noted (record s { busy = true })) { busy = false },
        some (r, values s, s.reason),
      )
]
