-- ===== src/Reports/AuditTrailReport.antt =====
-- The audit trail report: app/use_cases/generate_audit_trail_report.py, and the three streams of
-- events of app/adapters/audit_trail_repository_adapter.py.
pub mod Order
pub mod Rows
use laa_inquests_api.Prelude.{
  ℕ, ◌&&◌, ◌||◌, not, any, is_empty, map, Bool, Option, none, some, List, [], ◌∷◌, ◌++◌, ◌==◌,
  String, select, Result, ok, err, ◌>>=◌, if◌then◌else◌,
}
use laa_inquests_api.Prelude.Int.{ℤ, leb_ℤ, ltb_ℤ}
use laa_inquests_api.Text.{Text, eq_text}
use laa_inquests_api.Calendar.{Date, Datetime, instant}
use laa_inquests_api.Calendar.Utc.{as_utc}
use laa_inquests_api.Application.{Application}
use laa_inquests_api.Records.{HistoryEvent}
use laa_inquests_api.Events.{EventValue}
use laa_inquests_api.AuditTrail.{
  AuditTrailEvent, ReportType, csv_safe, or_default, application_overview_view_event,
  application_certificate_view_event, report_download_event,
}
use laa_inquests_api.AuditTrail.Catalogue.{EventDescriptionError, describe_event}
use laa_inquests_api.Reports.DateRange.{DateRangeError, resolve_report_window}
use laa_inquests_api.Reports.Described.{audit_event}
use laa_inquests_api.Reports.PaymentLines.{get}
use laa_inquests_api.Sorting.{order_by, merge}

pub data ApplicationPageType : Type 0 where
  overview certificate : ApplicationPageType

pub record ViewApplicationPagesAudit : Type 0 where
  pub timestamp : Datetime
  pub user_email_address : Text
  pub laa_reference : Text
  pub page : ApplicationPageType

-- Without its parameters, which no report shows.
pub record ReportAudit : Type 0 where
  pub timestamp : Datetime
  pub user_email_address : Text
  pub report_type : ReportType

-- A row of the history with the columns that the join gives it.
pub record HistoryRow : Type 0 where
  pub event : HistoryEvent
  pub laa_reference : Text
  pub firm_code : Text
  pub office_id : Text

-- The rows of `HistoryEvent` joined with `Application` and its `Provider`.
abbrev pub history_row : HistoryEvent → Application → HistoryRow
history_row e a = record {
  event = e;
  laa_reference = a.laa_reference;
  firm_code = a.provider.firm_code;
  office_id = a.provider.office_id;
}

abbrev join_event : List Application → HistoryEvent → List HistoryRow
join_event applications e =
    map (history_row e)
      (select (λ (a : Application). a.application_id == e.application_id) applications)

unfoldable pub joined : List Application → List HistoryEvent → List HistoryRow
joined applications [] = []
joined applications (e ∷ es) = join_event applications e ++ joined applications es

-- `timestamp >= from_inclusive, timestamp < before_exclusive`
abbrev pub in_window : Datetime → Datetime → Datetime → Bool
in_window from_inclusive before_exclusive timestamp =
    leb_ℤ (instant from_inclusive) (instant timestamp)
    && ltb_ℤ (instant timestamp) (instant before_exclusive)

-- The rows of a table in the window, `ORDER BY timestamp, id`.
abbrev pub rows_between : {A : Type 0} → (A → Datetime) → Datetime → Datetime → List A → List A
rows_between timestamp from_inclusive before_exclusive rows =
    order_by (λ a. instant (timestamp a))
      (select (λ a. in_window from_inclusive before_exclusive (timestamp a)) rows)

abbrev pub history_time : HistoryRow → Datetime
history_time row = row.event.timestamp

abbrev pub view_time : ViewApplicationPagesAudit → Datetime
view_time e = e.timestamp

abbrev pub report_time : ReportAudit → Datetime
report_time e = e.timestamp

-- `_view_event`
unfoldable pub view_event : ViewApplicationPagesAudit → AuditTrailEvent
view_event e = elim e.page [
  | overview ↦
      application_overview_view_event (as_utc e.timestamp) e.user_email_address e.laa_reference
  | certificate ↦
      application_certificate_view_event (as_utc e.timestamp) e.user_email_address e.laa_reference
]

unfoldable pub iter_application_view_events :
    Datetime → Datetime → List ViewApplicationPagesAudit → List AuditTrailEvent
unfolding view_event
iter_application_view_events from_inclusive before_exclusive rows =
    map view_event (rows_between view_time from_inclusive before_exclusive rows)

-- The event of `iter_report_events`.
abbrev pub report_event : ReportAudit → AuditTrailEvent
report_event e = report_download_event (as_utc e.timestamp) e.user_email_address e.report_type

unfoldable pub iter_report_events : Datetime → Datetime → List ReportAudit → List AuditTrailEvent
iter_report_events from_inclusive before_exclusive rows =
    map report_event (rows_between report_time from_inclusive before_exclusive rows)

-- The key of the merge.
abbrev pub occurred : AuditTrailEvent → ℤ
occurred e = instant (as_utc e.occurred_at)

-- `str_amount` and `str_other` are the texts of amounts and of values that are no texts.
module _ (str_amount : ℤ → Text) (str_other : EventValue → Text) where
  abbrev pub row_event : HistoryRow → AuditTrailEvent
  row_event row =
      audit_event str_amount str_other row.event row.laa_reference row.firm_code row.office_id

  -- `rows` is the join of the history and the applications.
  unfoldable pub iter_history_events : Datetime → Datetime → List HistoryRow → List AuditTrailEvent
  iter_history_events from_inclusive before_exclusive rows =
      map row_event (rows_between history_time from_inclusive before_exclusive rows)

  -- `_read_events`
  unfoldable pub read_events :
      Datetime
      → Datetime
      → List HistoryRow
      → List ViewApplicationPagesAudit
      → List ReportAudit
      → List AuditTrailEvent
  read_events from_inclusive before_exclusive history views reports =
      merge occurred (iter_history_events from_inclusive before_exclusive history) (
        merge occurred (iter_application_view_events from_inclusive before_exclusive views)
          (iter_report_events from_inclusive before_exclusive reports))
