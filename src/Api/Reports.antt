-- ===== src/Api/Reports.antt =====
-- The requests of modules/reports/api.ts.
use Prim.Native.String.{◌++◌}
use koranco.Base.{ℕ, String, [], Result}
use koranco.Session.{SessionState}
use koranco.Api.{ApiRequest, Fields, read, order, set_text, set_number}

pub data ReportKind : Type 0 where
  attendance harvest : ReportKind

-- The filters of a report; an empty text and a zero are a filter that is not given.
pub record ReportFilter : Type 0 where
  pub date_from : String
  pub date_to : String
  pub farm_unit_id : String
  pub unit : String
  pub limit : ℕ

abbrev pub dates : ReportFilter → Fields
dates f = set_text "date_to" f.date_to (set_text "date_from" f.date_from [])

abbrev pub harvest_filter : ReportFilter → Fields
harvest_filter f = set_text "unit" f.unit (set_text "farm_unit_id" f.farm_unit_id (dates f))

unfoldable pub get_overview : (date : String) → (days recent : ℕ) → ApiRequest
get_overview date days recent =
    read "/api/v1/reports/overview"
      (set_number "recent" recent (set_number "days" days (set_text "date" date [])))

unfoldable pub get_attendance_report : ReportFilter → ApiRequest
get_attendance_report f = read "/api/v1/reports/attendance" (set_number "limit" f.limit (dates f))

unfoldable pub get_harvest_report : ReportFilter → ApiRequest
get_harvest_report f =
    read "/api/v1/reports/harvest" (set_number "limit" f.limit (harvest_filter f))

abbrev pub kind_text : ReportKind → String
kind_text attendance = "attendance"
kind_text harvest = "harvest"

abbrev pub export_filter : ReportKind → ReportFilter → Fields
export_filter attendance f = dates f
export_filter harvest f = harvest_filter f

-- The request of `downloadCsv`; the file that it saves is not modelled.
unfoldable pub download_csv : ReportKind → ReportFilter → SessionState → Result ApiRequest
unfolding order
download_csv kind f = order ("/api/v1/reports/exports/" ++ kind_text kind) (export_filter kind f)
