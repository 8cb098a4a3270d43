-- ===== src/PayInFull.antt =====
-- `class PayInFullClaim` of app/domain/pay_in_full.py: the amounts of a decision to pay a claim,
-- and the amounts that a submitted payment on account gives.
pub mod Laws
use laa_inquests_api.Prelude.{
  Bool, true, false, not, ◌&&◌, ◌||◌, Option, none, some, List, [], ◌∷◌, is_some, value_or, all,
  Check, ◌>>◌, ok, raise_if, if◌then◌else◌,
}
use laa_inquests_api.Prelude.Int.{ℤ, pos, ◌+ℤ◌, eqb_ℤ, leb_ℤ}
use laa_inquests_api.Enums.{ClaimType, PoaType, is_payment_on_account, is_nil_bill, is_profit_cost}
use laa_inquests_api.Messages.{
  ClaimValidationError, error, profit_cost_not_allowed_for_nil_bill_claim,
  pif_profit_cost_not_allowed_for_nil_bill_message, profit_cost_not_allowed_for_poa_claim,
  pif_profit_cost_not_allowed_for_poa_message, missing_total_claim_cost,
  pif_missing_total_claim_cost_message, profit_cost_mixed_vat, pif_profit_cost_mixed_vat_message,
  missing_gross_total_when_net_entered, pif_missing_gross_total_message,
  missing_net_total_when_gross_entered, pif_missing_net_total_message,
  net_total_higher_than_gross_total, net_gt_gross_message,
  disbursement_not_allowed_for_nil_bill_claim, disb_not_allowed_for_nil_bill_message,
  disbursement_not_allowed_for_poa_claim, disb_not_allowed_for_poa_message,
  missing_disbursement_total, disb_missing_total_message,
  missing_disbursement_gross_when_net_entered, disb_missing_gross_total_message,
  missing_disbursement_net_when_gross_entered, disb_missing_net_total_message,
  disbursement_gross_not_greater_than_total, disb_gross_not_greater_than_total_message,
}
use laa_inquests_api.Claim.Totals.{both_gt, is_profit_cost_poa, is_other_poa}

pub record PayInFullClaim : Type 0 where
  pub claim_type_id : ClaimType
  pub poa_type_id : Option PoaType
  pub profit_cost_net : Option ℤ
  pub profit_cost_gross : Option ℤ
  pub profit_cost_vat_zero : Option ℤ
  pub disbursement_net : Option ℤ
  pub disbursement_gross : Option ℤ
  pub disbursement_vat_zero : Option ℤ

-- `amount is None or amount == 0`
abbrev pub none_or_zero : Option ℤ → Bool
none_or_zero none = true
none_or_zero (some amount) = eqb_ℤ amount (pos 0)

-- `is_nil_bill` of the class
unfoldable pub has_nil_amounts : PayInFullClaim → Bool
has_nil_amounts d = all none_or_zero (
    d.profit_cost_net ∷ d.profit_cost_gross ∷ d.profit_cost_vat_zero ∷ d.disbursement_net
    ∷ d.disbursement_gross ∷ d.disbursement_vat_zero ∷ [])

-- `_profit_cost_not_applicable`
profit_cost_not_applicable : PayInFullClaim → Bool
profit_cost_not_applicable d = is_payment_on_account d.claim_type_id && is_other_poa d.poa_type_id

-- `_disbursement_not_applicable`
disbursement_not_applicable : PayInFullClaim → Bool
disbursement_not_applicable d =
    is_payment_on_account d.claim_type_id && is_profit_cost_poa d.poa_type_id

-- `has_net or has_gross or has_vat_zero`
abbrev any_given : Option ℤ → Option ℤ → Option ℤ → Bool
any_given net gross vat_zero = is_some net || is_some gross || is_some vat_zero

-- The checks of `_validate_profit_cost` after its early returns.
validate_profit_cost_amounts : Option ℤ → Option ℤ → Option ℤ → Check ClaimValidationError
validate_profit_cost_amounts net gross vat_zero =
    raise_if (not (is_some net) && not (is_some gross) && not (is_some vat_zero))
      (error missing_total_claim_cost pif_missing_total_claim_cost_message)
    >> raise_if (is_some vat_zero && (is_some net || is_some gross))
        (error profit_cost_mixed_vat pif_profit_cost_mixed_vat_message)
    >> raise_if (is_some net && not (is_some gross))
        (error missing_gross_total_when_net_entered pif_missing_gross_total_message)
    >> raise_if (is_some gross && not (is_some net))
        (error missing_net_total_when_gross_entered pif_missing_net_total_message)
    >> raise_if (both_gt net gross) (error net_total_higher_than_gross_total net_gt_gross_message)

-- `_validate_profit_cost`
validate_profit_cost : PayInFullClaim → Check ClaimValidationError
unfolding profit_cost_not_applicable validate_profit_cost_amounts
validate_profit_cost d =
    let given : Bool = any_given d.profit_cost_net d.profit_cost_gross d.profit_cost_vat_zero in
    if is_nil_bill d.claim_type_id
    then raise_if given (
        error profit_cost_not_allowed_for_nil_bill_claim
          pif_profit_cost_not_allowed_for_nil_bill_message)
    else (if profit_cost_not_applicable d
        then raise_if given (
            error profit_cost_not_allowed_for_poa_claim pif_profit_cost_not_allowed_for_poa_message)
        else validate_profit_cost_amounts d.profit_cost_net d.profit_cost_gross
            d.profit_cost_vat_zero)

-- Whether the amounts at the standard rate are too small: the last check of
-- `_validate_disbursement`.
disbursement_gross_too_small : Option ℤ → Option ℤ → Option ℤ → Bool
disbursement_gross_too_small (some net) (some gross) vat_zero_amount =
    let vat_zero : ℤ = value_or vat_zero_amount (pos 0) in
    let has_no_standard_rated_disbursement : Bool =
      eqb_ℤ net (pos 0) && (eqb_ℤ gross (pos 0) || eqb_ℤ gross vat_zero) in
    not has_no_standard_rated_disbursement && leb_ℤ gross (vat_zero +ℤ net)
disbursement_gross_too_small _ _ vat_zero_amount = false

-- The checks of `_validate_disbursement` after its early returns.
validate_disbursement_amounts : Option ℤ → Option ℤ → Option ℤ → Check ClaimValidationError
unfolding disbursement_gross_too_small
validate_disbursement_amounts net gross vat_zero =
    raise_if (not (is_some net) && not (is_some gross) && not (is_some vat_zero))
      (error missing_disbursement_total disb_missing_total_message)
    >> raise_if (is_some net && not (is_some gross))
        (error missing_disbursement_gross_when_net_entered disb_missing_gross_total_message)
    >> raise_if (is_some gross && not (is_some net))
        (error missing_disbursement_net_when_gross_entered disb_missing_net_total_message)
    >> raise_if (disbursement_gross_too_small net gross vat_zero)
        (error disbursement_gross_not_greater_than_total disb_gross_not_greater_than_total_message)

-- `_validate_disbursement`
validate_disbursement : PayInFullClaim → Check ClaimValidationError
unfolding disbursement_not_applicable validate_disbursement_amounts
validate_disbursement d =
    let given : Bool = any_given d.disbursement_net d.disbursement_gross d.disbursement_vat_zero in
    if is_nil_bill d.claim_type_id
    then raise_if given
        (error disbursement_not_allowed_for_nil_bill_claim disb_not_allowed_for_nil_bill_message)
    else (if disbursement_not_applicable d
        then raise_if given
            (error disbursement_not_allowed_for_poa_claim disb_not_allowed_for_poa_message)
        else validate_disbursement_amounts d.disbursement_net d.disbursement_gross
            d.disbursement_vat_zero)

-- `validate`
unfoldable pub validate : PayInFullClaim → Check ClaimValidationError
unfolding validate_profit_cost validate_disbursement
validate d = validate_profit_cost d >> validate_disbursement d

-- The fields of a stored claim that `pay_in_full_claim_from_submitted_poa_claim` reads.
unfoldable pub pay_in_full_claim_from_submitted_poa_claim :
    ClaimType → Option PoaType → Option ℤ → Option ℤ → Option ℤ → PayInFullClaim
pay_in_full_claim_from_submitted_poa_claim claim_type_id poa_type_id net gross vat_zero =
    let is_profit : Bool = is_profit_cost_poa poa_type_id in
    record {
      claim_type_id = claim_type_id;
      poa_type_id = poa_type_id;
      profit_cost_net = if is_profit then net else none;
      profit_cost_gross = if is_profit then gross else none;
      profit_cost_vat_zero = if is_profit then vat_zero else none;
      disbursement_net = if not is_profit then net else none;
      disbursement_gross = if not is_profit then gross else none;
      disbursement_vat_zero = if not is_profit then vat_zero else none;
    }
