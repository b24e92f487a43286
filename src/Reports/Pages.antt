-- ===== src/Reports/Pages.antt =====
-- The pages of modules/reports: overview-content.tsx, attendance-report.tsx and harvest-report.tsx. An
-- effect that fetches runs at first and again whenever a filter is changed; answers come in any order.
pub mod Latest
use koranco.Base.{
  ℕ, zero, suc, String, Bool, true, false, not, Option, none, some, List, [], ◌∷◌, eqb,
  if◌then◌else◌, Result, ok, err,
}
use koranco.Types.Server.{AuthenticatedUser, FarmUnit}
use koranco.Offline.Lease.{includes}

-- `runs` counts the runs of the effect; `filter` is what the newest asks for. The response type and the
-- filters are those of the page.
pub record Page (F R : Type 0) : Type 0 where
  pub user : Option AuthenticatedUser
  pub filter : F
  pub runs : ℕ
  pub data_shown : Option R
  pub error_text : String
  pub exporting : Bool

pub data Event (F R : Type 0) : Type 0 where
  choose : F → Event F R
  answer : (run : ℕ) → Result R → Event F R

-- The farm units that the harvest report offers as a filter, from what listFarmUnits comes to.
unfoldable pub units_offered : Result (List FarmUnit) → List FarmUnit
units_offered (ok items) = items
units_offered (err _) = []

abbrev pub overview_message : String
overview_message = "The operational overview could not be loaded."

module _ {F R : Type 0} where
  -- What getCurrentSession comes to, on the two report pages and in reports-overview.tsx.
  unfoldable pub check_session : Result AuthenticatedUser → Page F R → Page F R
  check_session (err _) p = record p {
    error_text = "Your session could not be verified. Reports require an online connection.";
  }
  check_session (ok current) p =
      if not (includes current.permissions "reports.read")
      then record p { error_text = "You do not have permission to view reports." }
      else record p { user = some current }

  -- `message` is the page's own.
  unfoldable pub settled : (message : String) → Result R → Page F R → Page F R
  settled message (ok r) p = record p { data_shown = some r; error_text = "" }
  settled message (err _) p = record p { data_shown = none; error_text = message }

  abbrev pub chosen : F → Page F R → Page F R
  chosen f p = record p { filter = f; runs = suc p.runs }

  -- The overview: the clean-up of a run makes its answer count for nothing.
  unfoldable pub overview_step : Event F R → Page F R → Page F R
  unfolding settled
  overview_step (choose f) p = chosen f p
  overview_step (answer run r) p = if eqb run p.runs then settled overview_message r p else p

  -- The two reports, which have no clean-up.
  unfoldable pub report_step : (message : String) → Event F R → Page F R → Page F R
  unfolding settled
  report_step message (choose f) p = chosen f p
  report_step message (answer run r) p = settled message r p

  unfoldable pub run_all :
      (Event F R → Page F R → Page F R) → List (Event F R) → Page F R → Page F R
  run_all step [] p = p
  run_all step (e ∷ es) p = run_all step es (step e p)

  -- `exported` is what downloadCsv comes to; the overview exports without a user of its own.
  unfoldable pub overview_export : (exported : Result (Unit {0})) → Page F R → Page F R
  overview_export (ok _) p = record p { exporting = false }
  overview_export (err _) p = record p {
    error_text = "The export could not be completed. Check permissions and try again.";
    exporting = false;
  }

  unfoldable pub report_export : (exported : Result (Unit {0})) → Page F R → Page F R
  unfolding overview_export
  report_export exported p = elim p.user [ none ↦ p | some _ ↦ overview_export exported p ]
