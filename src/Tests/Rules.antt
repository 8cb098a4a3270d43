-- ===== src/Tests/Rules.antt =====
-- The theorems on dates, on claims and on their review, at concrete data.
use laa_inquests_api.Prelude.{
  ◌+◌, ◌*◌, ◌≤◌, ◌<◌, ◌≡◌, ◌≢◌, ◌↔◌, ◌⊎◌, refl, none, some, true, false, [], ok, is_ok, arith,
}
use laa_inquests_api.Prelude.Int.{pos, ◌+ℤ◌, ◌<ℤ◌, ℤ}
use laa_inquests_api.Calendar.{before, days_in_month, add_calendar_months}
use laa_inquests_api.Calendar.Months.{
  IsDate, add_calendar_months_lem, add_calendar_months-add_calendar_months,
}
use laa_inquests_api.Enums.{final_bill}
use laa_inquests_api.Money.{resolve_claim_total, total}
use laa_inquests_api.Application.{substantive_cost_limitation, overall_decision}
use laa_inquests_api.Claim.{post_init}
use laa_inquests_api.Claim.Rules.{FitsType, post_init_iff}
use laa_inquests_api.Claim.Totals.{validate_total_claim_cost}
use laa_inquests_api.Claim.Totals.Laws.{FitsTotals, validate_total_resolves, validate_total_iff}
use laa_inquests_api.Claim.Review.{
  should_auto_reject, requires_manual_review, is_eligible_for_auto_approval,
  should_auto_reject_for_early_profit_cost_poa, should_auto_reject_for_limit,
  get_substantive_cost_limit, should_auto_reject_for_max_poa_count, exceeds_hard_poa_limit,
  exceeds_aggregate_cost_limit, paid_total,
}
use laa_inquests_api.Claim.Review.Approval.{
  ApprovalRules, auto_approves, auto_approves_iff, bill_untouched,
}
use laa_inquests_api.PayInFull.{validate}
use laa_inquests_api.PayInFull.Laws.{as_submitted, profit_cost_payable, disbursement_payable_iff}
use laa_inquests_api.Tests.Data.{leap_day, june_first, profit_cost_claim, expert_claim, bill, case}

leap_day-IsDate : IsDate leap_day
unfolding days_in_month
leap_day-IsDate = record {
  year_pos = omega arith;
  month_pos = omega arith;
  month_le = omega arith;
  day_pos = omega arith;
  day_le = ground arith;
}

profit_cost_claim-FitsType : FitsType profit_cost_claim
unfolding post_init
profit_cost_claim-FitsType = (post_init_iff profit_cost_claim).0 refl

bill-FitsType : FitsType bill
unfolding post_init
bill-FitsType = (post_init_iff bill).0 refl

profit_cost_claim-accepted : validate_total_claim_cost profit_cost_claim ≡ ok profit_cost_claim
unfolding validate_total_claim_cost
profit_cost_claim-accepted = refl

expert_claim-accepted : validate_total_claim_cost expert_claim ≡ ok expert_claim
unfolding validate_total_claim_cost resolve_claim_total
expert_claim-accepted = refl

profit_cost_claim-approved : auto_approves profit_cost_claim case [] june_first ≡ true
unfolding should_auto_reject requires_manual_review is_eligible_for_auto_approval
    should_auto_reject_for_early_profit_cost_poa before add_calendar_months
    should_auto_reject_for_limit resolve_claim_total get_substantive_cost_limit
    substantive_cost_limitation should_auto_reject_for_max_poa_count exceeds_hard_poa_limit
    exceeds_aggregate_cost_limit ◌+ℤ◌ paid_total total overall_decision
profit_cost_claim-approved = refl

post_init_iff_example : (post_init bill ≡ ok tt) ↔ FitsType bill
post_init_iff_example = post_init_iff bill

validate_total_resolves_example :
    (resolve_claim_total (some (pos 12000)) none ≢ none)
    × (resolve_claim_total (some (pos 12000)) none ≡ resolve_claim_total (some (pos 12000)) none)
validate_total_resolves_example =
    validate_total_resolves profit_cost_claim profit_cost_claim profit_cost_claim-FitsType
      profit_cost_claim-accepted

validate_total_iff_example :
    (is_ok (validate_total_claim_cost bill) ≡ true) ↔ FitsTotals final_bill none bill
validate_total_iff_example = validate_total_iff bill bill-FitsType

auto_approves_iff_example :
    (auto_approves profit_cost_claim case [] june_first ≡ true)
    ↔ ((amount : ℤ) × ApprovalRules profit_cost_claim case [] june_first amount)
auto_approves_iff_example = auto_approves_iff profit_cost_claim case [] june_first

bill_untouched_example :
    (should_auto_reject bill case [] june_first ≡ [])
    × (requires_manual_review bill case [] ≡ false)
    × (is_eligible_for_auto_approval bill case ≡ false)
bill_untouched_example = bill_untouched bill case [] june_first bill-FitsType (ground arith)

add_calendar_months_lem_example :
    let e = add_calendar_months leap_day 12 in
    IsDate e
    × (e.year * 12 + e.month ≡ 2024 * 12 + 2 + 12)
    × (((e.day ≡ 29) × (29 ≤ days_in_month e.year e.month))
        ⊎ ((e.day ≡ days_in_month e.year e.month) × (days_in_month e.year e.month < 29)))
add_calendar_months_lem_example = add_calendar_months_lem leap_day 12 leap_day-IsDate

june-IsDate : IsDate june_first.date
unfolding days_in_month
june-IsDate = record {
  year_pos = omega arith;
  month_pos = omega arith;
  month_le = omega arith;
  day_pos = omega arith;
  day_le = ground arith;
}

add_calendar_months_twice_example :
    add_calendar_months (add_calendar_months june_first.date 9) 5
    ≡ add_calendar_months june_first.date 14
add_calendar_months_twice_example =
    add_calendar_months-add_calendar_months june_first.date 9 5 june-IsDate (ground arith)

profit_cost_payable_example : validate (as_submitted profit_cost_claim) ≡ ok tt
profit_cost_payable_example =
    profit_cost_payable profit_cost_claim profit_cost_claim refl refl profit_cost_claim-accepted

-- The amounts of the expert's claim cannot be paid as submitted: neither side holds.
disbursement_payable_iff_example : (validate (as_submitted expert_claim) ≡ ok tt) ↔ (
    (pos 0 +ℤ pos 10000 <ℤ pos 10000)
    ⊎ ((pos 10000 ≡ pos 0) × ((pos 10000 ≡ pos 0) ⊎ (pos 10000 ≡ pos 0))))
disbursement_payable_iff_example =
    disbursement_payable_iff expert_claim expert_claim (pos 10000) (pos 10000) (pos 0) refl
      (ground arith) (ground arith) expert_claim-accepted refl refl refl
