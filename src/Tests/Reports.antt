-- ===== src/Tests/Reports.antt =====
-- The theorems on the reports, at concrete data.
use laa_inquests_api.Prelude.{
  ◌<◌, ◌≡◌, ◌↔◌, refl, true, false, none, some, List, [], ◌∷◌, ok, err, is_ok, is_empty, map,
  select, All, arith,
}
use laa_inquests_api.Prelude.Int.{pos, ◌≤ℤ◌, ◌<ℤ◌, ◌+ℤ◌, ◌-ℤ◌}
use laa_inquests_api.Text.{Text, codes}
use laa_inquests_api.Calendar.{
  Date, Datetime, days_in_month, days_before_month, to_ordinal, instant, day_micros, before,
}
use laa_inquests_api.Calendar.Months.{IsDate}
use laa_inquests_api.Calendar.Utc.{IsDatetime, as_utc, as_utc-instant}
use laa_inquests_api.Enums.{
  poa, profit_cost, expert_cost, recouped, gb_vat_20, MeritsDecision, ClaimStatus,
  claim_assessment_completed, caseworker,
}
use laa_inquests_api.Money.{
  payment_amount, resolve_claim_total, calculate_available_funds, total, is_approved,
}
use laa_inquests_api.Records.{HistoryEvent, rejection_data}
use laa_inquests_api.Enums.{payment_on_account}
use laa_inquests_api.Store.{Session}
use laa_inquests_api.Store.History.{rejected}
use laa_inquests_api.Reports.DateRange.{
  FitsRange, resolve_report_window, resolve_report_window_iff, resolve_report_window-covers, window,
}
use laa_inquests_api.Reports.Decisions.{build_decisions_report_row}
use laa_inquests_api.Reports.Described.{
  IsDescribed, source_record, IsWritten-build_decisions_report_row,
}
use laa_inquests_api.Reports.PaymentLines.{
  PaymentLineType, PaymentExtractReportSourceLine, PaymentRow, PaymentLineClassification,
  build_classification_lookup, build_firm_name_lookup, build_rows, classify_payment_line,
  poa_profit_costs, disbursements,
}
use laa_inquests_api.Reports.PaymentLines.PreChecked.{AreRowsOf, build_rows-pre_checked}
use laa_inquests_api.Reports.CostLimitForecast.{
  CostLimitForecastCandidate, no_public_bodies_found, build_cost_limit_forecast_row, generate_rows,
  is_live, has_paid_final_bill, remaining_cost_limit,
}
use laa_inquests_api.Reports.CostLimitForecast.Rows.{
  is_included, own_row, build_cost_limit_forecast_row-err, generate_rows_lem,
}
use laa_inquests_api.UseCases.Sequence.{
  Reach, here, next, request, close, serve, reject_claim, add_note, Reach-IsDescribed,
}
use laa_inquests_api.Tests.Data.{june_first, claim_reference, calm, start}
use laa_inquests_api.Tests.Flows.{rejecting}

abbrev pub first_day : Date
first_day = record { year = 2026; month = 2; day = 1 }

abbrev pub last_day : Date
last_day = record { year = 2026; month = 2; day = 28 }

pub first_day-IsDate : IsDate first_day
unfolding days_in_month
first_day-IsDate = record {
  year_pos = omega arith;
  month_pos = omega arith;
  month_le = omega arith;
  day_pos = omega arith;
  day_le = ground arith;
}

pub last_day-IsDate : IsDate last_day
unfolding days_in_month
last_day-IsDate = record {
  year_pos = omega arith;
  month_pos = omega arith;
  month_le = omega arith;
  day_pos = omega arith;
  day_le = ground arith;
}

window_example :
    (resolve_report_window first_day last_day 30 ≡ ok (window first_day last_day))
    ↔ (FitsRange first_day last_day 30 × (window first_day last_day ≡ window first_day last_day))
window_example =
    resolve_report_window_iff first_day last_day 30 (window first_day last_day) first_day-IsDate
      last_day-IsDate

window_run : resolve_report_window first_day last_day 30 ≡ ok (window first_day last_day)
unfolding resolve_report_window before to_ordinal days_before_month days_in_month
window_run = refl

covers_example :
    let time : Datetime = record {
      date = last_day;
      micros = 86399999999;
      utc_offset = some (pos 0);
    } in
    ((instant (window first_day last_day).0 ≤ℤ instant time)
      × (instant time <ℤ instant (window first_day last_day).1))
    ↔ ((before last_day first_day ≡ false) × (before last_day last_day ≡ false))
covers_example =
    resolve_report_window-covers first_day last_day 30 (window first_day last_day) last_day
      86399999999 first_day-IsDate last_day-IsDate last_day-IsDate (omega arith) window_run

-- Half past midnight, an hour ahead of UTC.
abbrev pub summer_night : Datetime
summer_night = record { date = first_day; micros = 1800000000; utc_offset = some (pos 3600000000) }

pub summer_night-IsDatetime : IsDatetime summer_night
unfolding to_ordinal days_before_month days_in_month
summer_night-IsDatetime = record {
  date = first_day-IsDate;
  later = omega arith;
  micros = omega arith;
  utc_offset = (omega arith, omega arith);
}

as_utc_example :
    (instant (as_utc summer_night) ≡ instant summer_night)
    × ((as_utc summer_night).utc_offset ≡ some (pos 0))
    × ((as_utc summer_night).micros < day_micros)
as_utc_example = as_utc-instant summer_night summer_night-IsDatetime

abbrev pub rejection_event : HistoryEvent
rejection_event = record {
  event_reference = claim_assessment_completed;
  timestamp = june_first;
  actor = codes "Ann";
  actor_type = caseworker;
  entra_user_object_id = none;
  actor_email_address = none;
  application_id = 5;
  event_data = rejection_data payment_on_account claim_reference (codes "Too late");
}

decisions_row_example :
    is_ok (
      build_decisions_report_row (
        source_record
          (λ _. [])
          (λ _. [])
          rejection_event
          (codes "INQ-ACE-347")
          june_first
          (some june_first)))
    ≡ true
decisions_row_example =
    IsWritten-build_decisions_report_row (λ _. []) (λ _. []) rejection_event (codes "INQ-ACE-347")
      june_first june_first (rejected payment_on_account claim_reference (codes "Too late")) refl
      refl

-- A rejection and a note, after which the session is closed.
abbrev last_session : Session
last_session =
    let s : Session = serve (reject_claim true rejecting) calm start in
    laa_inquests_api.Store.Actions.rollback (serve (add_note (codes "I1") (codes "Called")) calm s)

two_requests : Reach start last_session
two_requests =
    next
      (next (next here (request calm start (reject_claim true rejecting)))
        (request calm _ (add_note (codes "I1") (codes "Called"))))
      (close _)

Reach-IsDescribed_example : All (IsDescribed (λ _. []) (λ _. [])) last_session.committed.history
Reach-IsDescribed_example =
    Reach-IsDescribed (λ _. []) (λ _. []) start last_session refl refl two_requests

abbrev line_types : List PaymentLineType
line_types =
    record { invoice_type = poa; poa_type = some profit_cost; original_poa_type = none }
    ∷ record { invoice_type = recouped; poa_type = none; original_poa_type = some expert_cost }
    ∷ []

abbrev classes : List (PaymentLineType × PaymentLineClassification)
classes =
    (
      record { invoice_type = poa; poa_type = some profit_cost; original_poa_type = none },
      poa_profit_costs,
    )
    ∷ (
      record { invoice_type = recouped; poa_type = none; original_poa_type = some expert_cost },
      disbursements,
    )
    ∷ []

abbrev firms : List (Text × Text)
firms = (codes "0A", codes "Firm") ∷ []

abbrev line : PaymentExtractReportSourceLine
line = record {
  invoice_number = codes "INQC-1-002";
  invoice_amount = pos 1200;
  invoice_date = first_day;
  tax_code = gb_vat_20;
  line_type = record {
    invoice_type = recouped;
    poa_type = none;
    original_poa_type = some expert_cost;
  };
  firm_code = codes "0A";
  office_id = codes "1A";
  laa_reference = codes "INQ-ACE-347";
  client_first_name = some (codes "Jane");
  client_last_name = none;
}

classes_run : build_classification_lookup line_types ≡ ok classes
unfolding build_classification_lookup classify_payment_line
classes_run = refl

firms_run : build_firm_name_lookup firms (codes "0A" ∷ []) ≡ ok firms
unfolding build_firm_name_lookup
firms_run = refl

build_rows_example :
    (rows : List PaymentRow) × (build_rows (line ∷ []) firms classes ≡ ok rows)
    × AreRowsOf (line ∷ []) rows
build_rows_example =
    build_rows-pre_checked line_types (codes "0A" ∷ []) firms firms classes (line ∷ []) classes_run
      firms_run ((refl, refl), tt)

abbrev candidate : CostLimitForecastCandidate
candidate = record {
  application_id = 5;
  laa_reference = codes "INQ-ACE-347";
  application_status = some "LIVE";
  merits_decision = MeritsDecision.granted;
  certificate_end_date = some last_day;
  cost_limit = some 25000;
  certificate_effective_date = first_day;
  claims =
      record {
        claim_type = payment_on_account;
        status = ClaimStatus.pay_in_full;
        gross = some (pos 12000);
        vat_zero_total = none;
      }
      ∷ [];
  public_bodies = [];
}

forecast_err_example :
    (build_cost_limit_forecast_row candidate last_day ≡ err (no_public_bodies_found 5)) ↔ (
      (is_included last_day candidate ≡ true)
      × (is_empty candidate.public_bodies ≡ true)
      × (no_public_bodies_found 5 ≡ no_public_bodies_found candidate.application_id))
unfolding payment_amount resolve_claim_total
forecast_err_example =
    build_cost_limit_forecast_row-err candidate last_day (no_public_bodies_found 5)
      (omega arith, tt)

abbrev bodies : CostLimitForecastCandidate
bodies = record candidate { public_bodies = codes "Home Office" ∷ codes "Cabinet Office" ∷ [] }

forecast_run : generate_rows (bodies ∷ []) last_day ≡ ok (own_row bodies ∷ [])
unfolding generate_rows build_cost_limit_forecast_row is_live has_paid_final_bill
    remaining_cost_limit before calculate_available_funds ◌-ℤ◌ total is_approved ◌+ℤ◌ payment_amount
    resolve_claim_total
forecast_run = refl

generate_rows_example :
    own_row bodies ∷ [] ≡ map own_row (select (is_included last_day) (bodies ∷ []))
generate_rows_example = generate_rows_lem (bodies ∷ []) last_day (own_row bodies ∷ []) forecast_run
