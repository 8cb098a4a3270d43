-- ===== src/Claim/Review.antt =====
-- The automatic review of a claim: the rejection, approval and hold rules of `class Claim` of
-- app/domain/claim.py.
pub mod Approval
use text.Mathlib.Text.{◌==◌ as str_eq}
use laa_inquests_api.Prelude.{
  ℕ, ◌*◌, Bool, true, false, not, ◌&&◌, ◌||◌, Option, none, some, List, [], ◌∷◌, ◌++◌, map, is_some,
  is_empty, value_or, Check, raise_if, String, length, select, any, leb, if◌then◌else◌,
}
use laa_inquests_api.Prelude.Int.{ℤ, pos, ◌+ℤ◌, ◌-ℤ◌, ltb_ℤ, leb_ℤ}
use laa_inquests_api.Enums.{
  ClaimType, ClaimStatus, PoaType, ClaimRejectionReason, is_payment_on_account, is_paid_in_full,
  is_granted,
}
use laa_inquests_api.Messages.{
  ClaimValidationError, error, active_final_bill_exists, active_final_bill_exists_message,
}
use laa_inquests_api.Calendar.{
  Date, Datetime, as_utc, instant, day_micros, before, add_calendar_months,
}
use laa_inquests_api.Money.{
  resolve_claim_total, total, pounds, auto_approval_max_total, max_profit_cost_poa_claim_count,
  min_months_before_profit_cost_poa,
}
use laa_inquests_api.Application.{Application, overall_decision, substantive_cost_limitation}
use laa_inquests_api.Claim.{Claim, in_inquest_outcome_claim_types}
use laa_inquests_api.Claim.Totals.{some_and, is_profit_cost_poa}

pub record ExistingClaimSummary : Type 0 where
  pub claim_type : ClaimType
  pub status : ClaimStatus
  pub poa_type : Option PoaType
  pub submission_date : Datetime
  pub net : Option ℤ
  pub gross : Option ℤ
  pub vat_zero_total : Option ℤ

-- `status in ACTIVE_FINAL_BILL_STATUSES`
abbrev pub in_active_final_bill_statuses : ClaimStatus → Bool
in_active_final_bill_statuses ClaimStatus.submitted = true
in_active_final_bill_statuses ClaimStatus.pay_in_full = true
in_active_final_bill_statuses _ = false

unfoldable pub is_active_final_bill : ExistingClaimSummary → Bool
is_active_final_bill c =
    in_inquest_outcome_claim_types c.claim_type && in_active_final_bill_statuses c.status

-- `validate_no_active_final_bill`
unfoldable pub validate_no_active_final_bill :
    List ExistingClaimSummary → Check ClaimValidationError
validate_no_active_final_bill existing_claims =
    raise_if (any is_active_final_bill existing_claims)
      (error active_final_bill_exists active_final_bill_exists_message)

-- `status in (REJECTED, REJECTED_WITH_AMENDMENT)`
abbrev pub is_rejection_status : ClaimStatus → Bool
is_rejection_status ClaimStatus.rejected = true
is_rejection_status ClaimStatus.rejected_with_amendment = true
is_rejection_status _ = false

-- `(reference_date or datetime.now(UTC)) - timedelta(days=365)`, as a point of time
unfoldable pub poa_cutoff : Datetime → ℤ
poa_cutoff reference_date = instant reference_date -ℤ pos (365 * day_micros)

-- The filter of `active_poas`.
unfoldable pub is_active_poa : ℤ → ExistingClaimSummary → Bool
is_active_poa cutoff c =
    is_profit_cost_poa c.poa_type
    && not (is_rejection_status c.status)
    && leb_ℤ cutoff (instant (as_utc c.submission_date))

-- `should_auto_reject_for_max_poa_count`
unfoldable pub should_auto_reject_for_max_poa_count :
    Claim → List ExistingClaimSummary → Datetime → Option ClaimRejectionReason
should_auto_reject_for_max_poa_count c existing_claims reference_date =
    if not (is_profit_cost_poa c.poa_type)
    then none
    else (if leb max_profit_cost_poa_claim_count
          (length (select (is_active_poa (poa_cutoff reference_date)) existing_claims))
        then some ClaimRejectionReason.max_poa_claims_exceeded
        else none)

-- `_get_substantive_cost_limit`
unfoldable pub get_substantive_cost_limit : Application → Option ℤ
get_substantive_cost_limit a = elim (substantive_cost_limitation a.proceeding) [
  | none ↦ none
  | some raw_limit ↦ some (pounds raw_limit)
]

-- `amount is not None and limit is not None and amount > limit`
abbrev pub both_exceeds : Option ℤ → Option ℤ → Bool
both_exceeds (some amount) (some limit) = ltb_ℤ limit amount
both_exceeds _ _ = false

-- `should_auto_reject_for_limit`
unfoldable pub should_auto_reject_for_limit : Claim → Application → Option ClaimRejectionReason
should_auto_reject_for_limit c a =
    if not (is_payment_on_account c.claim_type)
    then none
    else (if both_exceeds (resolve_claim_total c.gross c.vat_zero_total)
          (get_substantive_cost_limit a)
        then some ClaimRejectionReason.claim_exceeds_substantive_cost_limit
        else none)

-- `start is not None and submission_date < earliest_allowed`
abbrev pub is_too_early : Datetime → Option Date → Bool
is_too_early reference_date none = false
is_too_early reference_date (some start) =
    before reference_date.date (add_calendar_months start min_months_before_profit_cost_poa)

-- `should_auto_reject_for_early_profit_cost_poa`
unfoldable pub should_auto_reject_for_early_profit_cost_poa :
    Claim → Application → Datetime → Option ClaimRejectionReason
should_auto_reject_for_early_profit_cost_poa c a reference_date =
    if not (is_profit_cost_poa c.poa_type)
    then none
    else (if is_too_early reference_date a.proceeding.certificate_start_date
        then some ClaimRejectionReason.profit_cost_poa_claim_submitted_too_early
        else none)

-- `if reason: reasons.append(reason)`
abbrev pub append_reason :
    List ClaimRejectionReason → Option ClaimRejectionReason → List ClaimRejectionReason
append_reason reasons none = reasons
append_reason reasons (some r) = reasons ++ (r ∷ [])

-- `should_auto_reject`, whose result is the reasons of a `ClaimRejection`
unfoldable pub should_auto_reject :
    Claim → Application → List ExistingClaimSummary → Datetime → List ClaimRejectionReason
should_auto_reject c a existing_claims reference_date =
    append_reason
      (append_reason
        (append_reason [] (should_auto_reject_for_max_poa_count c existing_claims reference_date))
        (should_auto_reject_for_limit c a))
      (should_auto_reject_for_early_profit_cost_poa c a reference_date)

-- `ClaimRejection.is_rejected`
abbrev pub is_rejected : List ClaimRejectionReason → Bool
is_rejected reasons = not (is_empty reasons)

-- `_exceeds_hard_poa_limit`
unfoldable pub exceeds_hard_poa_limit : Claim → Bool
exceeds_hard_poa_limit c =
    is_payment_on_account c.claim_type
    && both_exceeds (resolve_claim_total c.gross c.vat_zero_total) (some auto_approval_max_total)

-- `resolve_claim_total(c.gross, c.vat_zero_total) or Decimal(0)`
abbrev pub summary_cost : ExistingClaimSummary → ℤ
summary_cost c = value_or (resolve_claim_total c.gross c.vat_zero_total) (pos 0)

-- The total of the claims that have been paid in full.
unfoldable pub paid_total : List ExistingClaimSummary → ℤ
paid_total existing_claims = total (
    map summary_cost
      (select (λ (c : ExistingClaimSummary). is_paid_in_full c.status) existing_claims))

-- `cost is not None and limit is not None and existing_total + cost > limit`
abbrev pub sum_exceeds : ℤ → Option ℤ → Option ℤ → Bool
sum_exceeds existing_total (some cost) (some limit) = ltb_ℤ limit (existing_total +ℤ cost)
sum_exceeds existing_total _ _ = false

-- `exceeds_aggregate_cost_limit`
unfoldable pub exceeds_aggregate_cost_limit : Claim → Application → List ExistingClaimSummary → Bool
exceeds_aggregate_cost_limit c a existing_claims =
    is_payment_on_account c.claim_type
    && sum_exceeds (paid_total existing_claims) (resolve_claim_total c.gross c.vat_zero_total)
        (get_substantive_cost_limit a)

-- `requires_manual_review`
unfoldable pub requires_manual_review : Claim → Application → List ExistingClaimSummary → Bool
requires_manual_review c a existing_claims =
    is_payment_on_account c.claim_type
    && (exceeds_hard_poa_limit c || exceeds_aggregate_cost_limit c a existing_claims)

-- `application.status == "WITHDRAWN"`
abbrev pub is_withdrawn : Application → Bool
is_withdrawn a = some_and (λ s. str_eq s "WITHDRAWN") a.status

-- `is_eligible_for_auto_approval`
unfoldable pub is_eligible_for_auto_approval : Claim → Application → Bool
is_eligible_for_auto_approval c a =
    is_payment_on_account c.claim_type
    && is_some (resolve_claim_total c.gross c.vat_zero_total)
    && not (exceeds_hard_poa_limit c)
    && not (is_withdrawn a)
    && is_granted (overall_decision a)
