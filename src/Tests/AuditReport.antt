-- ===== src/Tests/AuditReport.antt =====
-- The audit trail report, on a rejection, a view of a certificate and a download.
use mathlib.Core.List.{Perm}
use laa_inquests_api.Prelude.{◌≡◌, refl, some, List, [], ◌∷◌, true, is_ok, arith}
use laa_inquests_api.Text.{Text, codes}
use laa_inquests_api.Calendar.{days_in_month, to_ordinal, days_before_month}
use laa_inquests_api.Enums.{payment_on_account}
use laa_inquests_api.AuditTrail.{decisions}
use laa_inquests_api.Store.History.{rejected}
use laa_inquests_api.Sorting.{IsSorted}
use laa_inquests_api.Reports.DateRange.{FitsRange}
use laa_inquests_api.Reports.AuditTrailReport.{
  HistoryRow, ViewApplicationPagesAudit, ReportAudit, certificate, occurred, read_events,
}
use laa_inquests_api.Reports.AuditTrailReport.Order.{events_between, read_events_exact}
use laa_inquests_api.Reports.AuditTrailReport.Rows.{generate_audit_trail_report}
use laa_inquests_api.Reports.AuditTrailReport.Rows.Success.{
  names_of, generate_audit_trail_report-is_ok,
}
use laa_inquests_api.Tests.Data.{june_first, claim_reference}
use laa_inquests_api.Tests.Reports.{
  rejection_event, summer_night, summer_night-IsDatetime, first_day, last_day, first_day-IsDate,
  last_day-IsDate,
}

abbrev row : HistoryRow
row = record {
  event = record rejection_event { timestamp = summer_night };
  laa_reference = codes "INQ-ACE-347";
  firm_code = codes "F";
  office_id = codes "O";
}

abbrev view : ViewApplicationPagesAudit
view = record {
  timestamp = summer_night;
  user_email_address = codes "c@laa";
  laa_reference = codes "INQ-ACE-347";
  page = certificate;
}

abbrev download : ReportAudit
download = record {
  timestamp = summer_night;
  user_email_address = codes "c@laa";
  report_type = decisions;
}

read_events_exact_example :
    IsSorted occurred (
      read_events
        (λ _. [])
        (λ _. [])
        summer_night
        june_first
        (row ∷ [])
        (view ∷ [])
        (download ∷ []))
    × Perm
        (read_events
          (λ _. [])
          (λ _. [])
          summer_night
          june_first
          (row ∷ [])
          (view ∷ [])
          (download ∷ []))
        (events_between
          (λ _. [])
          (λ _. [])
          summer_night
          june_first
          (row ∷ [])
          (view ∷ [])
          (download ∷ []))
read_events_exact_example =
    read_events_exact (λ _. []) (λ _. []) summer_night june_first (row ∷ []) (view ∷ [])
      (download ∷ []) (summer_night-IsDatetime, tt) (summer_night-IsDatetime, tt)
      (summer_night-IsDatetime, tt)

fits : FitsRange first_day last_day 30
unfolding to_ordinal days_before_month days_in_month
fits = record { in_order = omega arith; short = omega arith; not_last = refl }

generate_audit_trail_report-is_ok_example :
    is_ok (
      generate_audit_trail_report
        (λ _. [])
        (λ _. [])
        (λ (codes : List Text). some (names_of (λ c. c) codes))
        (row ∷ [])
        (view ∷ [])
        (download ∷ [])
        first_day
        last_day)
    ≡ true
generate_audit_trail_report-is_ok_example =
    generate_audit_trail_report-is_ok (λ _. []) (λ _. [])
      (λ (codes : List Text). some (names_of (λ c. c) codes)) (λ c. c) (row ∷ []) (view ∷ [])
      (download ∷ []) first_day last_day first_day-IsDate last_day-IsDate fits
      (rejected payment_on_account claim_reference (codes "Too late"), tt) (λ codes. refl)
