-- ===== src/Reports/AuditTrailReport/Rows.antt =====
-- The rows of the audit trail report: app/use_cases/generate_audit_trail_report.py.
pub mod Success
use laa_inquests_api.Prelude.{
  ◌&&◌, ◌||◌, is_empty, Bool, true, false, Option, none, some, List, [], ◌∷◌, ◌++◌, ltb, ◌==◌,
  Result, ok, err, ◌>>=◌, map_err, map, if◌then◌else◌,
}
use laa_inquests_api.Prelude.Int.{ℤ}
use laa_inquests_api.Text.{Text, codes, eq_text, decimal}
use laa_inquests_api.Calendar.{Date, Datetime}
use laa_inquests_api.Calendar.Utc.{as_utc}
use laa_inquests_api.Events.{EventValue}
use laa_inquests_api.AuditTrail.{AuditTrailEvent, csv_safe}
use laa_inquests_api.AuditTrail.Catalogue.{EventDescriptionError, EventDescription, describe_event}
use laa_inquests_api.Reports.DateRange.{DateRangeError, resolve_report_window}
use laa_inquests_api.Reports.Decisions.{two_digits, time_text}
use laa_inquests_api.Reports.PaymentLines.{ReportError, get, build_firm_name_lookup}
use laa_inquests_api.Reports.AuditTrailReport.{
  HistoryRow, ViewApplicationPagesAudit, ReportAudit, read_events,
}

-- `InvalidDateRangeError`, `ReportGenerationError` for a name or for a description, and the errors
-- of the provider details service.
pub data AuditReportError : Type 0 where
  date_range : DateRangeError → AuditReportError
  firm_names : ReportError → AuditReportError
  provider_details : AuditReportError
  description : EventDescriptionError → AuditReportError

-- `s < t`, by code points
before_text : Text → Text → Bool
before_text [] [] = false
before_text [] (d ∷ t) = true
before_text (c ∷ s) [] = false
before_text (c ∷ s) (d ∷ t) = ltb c d || ((c == d) && before_text s t)

-- A code in a sorted list without repetitions.
insert_code : Text → List Text → List Text
unfolding before_text
insert_code c [] = c ∷ []
insert_code c (d ∷ ds) =
    let rest = insert_code c ds in
    if eq_text c d then d ∷ ds else (if before_text c d then c ∷ d ∷ ds else d ∷ rest)

-- `sorted({e.firm_code for e in events if e.firm_code})`
unfoldable pub firm_codes : List AuditTrailEvent → List Text
unfolding insert_code
firm_codes [] = []
firm_codes (e ∷ es) =
    let rest = firm_codes es in
    elim e.firm_code [ none ↦ rest | some c ↦ if is_empty c then rest else insert_code c rest ]

-- `_build_firm_name_lookup`; `get_firms_by_ids` gives no names when the service fails.
unfoldable pub build_audit_firm_name_lookup :
    (List Text → Option (List (Text × Text)))
    → List AuditTrailEvent
    → Result AuditReportError (List (Text × Text))
unfolding firm_codes
build_audit_firm_name_lookup get_firms_by_ids events =
    let wanted : List Text = firm_codes events in
    if is_empty wanted then ok [] else elim (get_firms_by_ids wanted) [
      | none ↦ err provider_details
      | some firms ↦ map_err firm_names (build_firm_name_lookup firms wanted)
    ]

-- `strftime("%Y-%m-%d")`
iso_date_text : Date → Text
unfolding two_digits decimal
iso_date_text d =
    decimal 4 d.year ++ codes "-" ++ two_digits d.month ++ codes "-" ++ two_digits d.day

-- `value or ""`
abbrev or_empty : Option Text → Text
or_empty none = []
or_empty (some t) = t

-- `firm_names.get(event.firm_code, "") if event.firm_code else ""`
firm_name : Option Text → List (Text × Text) → Text
firm_name none names = []
firm_name (some c) names = if is_empty c then [] else or_empty (get eq_text c names)

-- The cells of `_build_row`.
abbrev pub row_cells : AuditTrailEvent → List (Text × Text) → EventDescription → List Text
unfolding iso_date_text time_text firm_name csv_safe
row_cells event names described =
    let occurred_at : Datetime = as_utc event.occurred_at in
    map csv_safe (
      described.title
      ∷ described.description
      ∷ iso_date_text occurred_at.date
      ∷ time_text occurred_at
      ∷ event.username
      ∷ or_empty event.laa_reference
      ∷ firm_name event.firm_code names
      ∷ or_empty event.office_id
      ∷ [])

module _ (str_amount : ℤ → Text) (str_other : EventValue → Text) where
  -- `_build_row`
  unfoldable pub build_audit_row :
      AuditTrailEvent → List (Text × Text) → Result AuditReportError (List Text)
  build_audit_row event names =
      elim (describe_event str_other event.event_reference event.event_data) [
        | ok described ↦ ok (row_cells event names described)
        | err e ↦ err (description e)
      ]

  -- The rows of `_build_csv` below its header.
  unfoldable pub build_audit_rows :
      List AuditTrailEvent → List (Text × Text) → Result AuditReportError (List (List Text))
  unfolding build_audit_row
  build_audit_rows [] names = ok []
  build_audit_rows (e ∷ es) names = do
    row ← build_audit_row e names
    rows ← build_audit_rows es names
    ok (row ∷ rows)

  -- `execute`, up to the text of the file; 30 is `MAX_REPORT_RANGE_DAYS`.
  unfoldable pub generate_audit_trail_report :
      (List Text → Option (List (Text × Text)))
      → List HistoryRow
      → List ViewApplicationPagesAudit
      → List ReportAudit
      → Date
      → Date
      → Result AuditReportError (List (List Text))
  generate_audit_trail_report get_firms_by_ids history views reports from_date to_date = do
    window ← map_err date_range (resolve_report_window from_date to_date 30)
    let events : List AuditTrailEvent =
        read_events str_amount str_other window.0 window.1 history views reports
    names ← build_audit_firm_name_lookup get_firms_by_ids events
    build_audit_rows events names
