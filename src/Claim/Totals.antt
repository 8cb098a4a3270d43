-- ===== src/Claim/Totals.antt =====
-- The amounts of a claim: `validate_total_claim_cost` of app/domain/claim.py and the checks that
-- it calls. It may fill in amounts of the claim, so it returns the claim.
pub mod Laws
use laa_inquests_api.Prelude.{
  Bool, not, ◌&&◌, ◌||◌, Option, none, some, is_some, value_or, Check, ◌>>◌, Result, ok, raise_if,
  if◌then◌else◌, true, false,
}
use laa_inquests_api.Prelude.Int.{ℤ, pos, ltb_ℤ, leb_ℤ, eqb_ℤ}
use laa_inquests_api.Enums.{
  PoaType, is_payment_on_account, is_final_bill, is_nil_bill, is_profit_cost,
}
use laa_inquests_api.Messages.{
  ClaimValidationError, error, missing_non_profit_cost_total, missing_non_profit_cost_total_message,
  missing_gross_total_when_net_entered, missing_gross_message, profit_cost_mixed_vat,
  mixed_vat_message, missing_total_claim_cost, missing_total_message,
  net_total_not_allowed_for_bill, net_total_not_allowed_for_bill_message,
  vat_zero_total_not_allowed_for_bill, vat_zero_total_not_allowed_for_bill_message,
  missing_gross_total_for_bill, missing_gross_total_for_bill_message, nil_bill_gross_must_be_zero,
  nil_bill_gross_must_be_zero_message, final_bill_gross_must_be_positive,
  final_bill_gross_must_be_positive_message, negative_net_cost, negative_net_message,
  net_total_higher_than_gross_total, net_gt_gross_message,
}
use laa_inquests_api.Money.{resolve_claim_total}
use laa_inquests_api.Claim.{Claim, in_inquest_outcome_claim_types}

-- `o is not None and p(o)`
abbrev pub some_and {ℓ} : {A : Type ℓ} → (A → Bool) → Option A → Bool
some_and p none = false
some_and p (some a) = p a

-- `a is not None and b is not None and a > b`
abbrev pub both_gt : Option ℤ → Option ℤ → Bool
both_gt (some a) (some b) = ltb_ℤ b a
both_gt _ _ = false

-- `_validate_bill_totals`
validate_bill_totals : Claim → Check ClaimValidationError
validate_bill_totals c =
    raise_if (is_some c.net)
      (error net_total_not_allowed_for_bill net_total_not_allowed_for_bill_message)
    >> raise_if (is_some c.vat_zero_total)
        (error vat_zero_total_not_allowed_for_bill vat_zero_total_not_allowed_for_bill_message)
    >> raise_if (not (is_some c.gross))
        (error missing_gross_total_for_bill missing_gross_total_for_bill_message)
    >> raise_if (is_nil_bill c.claim_type && some_and (λ g. not (eqb_ℤ g (pos 0))) c.gross)
        (error nil_bill_gross_must_be_zero nil_bill_gross_must_be_zero_message)
    >> raise_if (is_final_bill c.claim_type && some_and (λ g. leb_ℤ g (pos 0)) c.gross)
        (error final_bill_gross_must_be_positive final_bill_gross_must_be_positive_message)

-- `_validate_totals_consistency`
validate_totals_consistency : Claim → Check ClaimValidationError
validate_totals_consistency c =
    raise_if (some_and (λ n. ltb_ℤ n (pos 0)) c.net) (error negative_net_cost negative_net_message)
    >> raise_if (both_gt c.net c.gross)
        (error net_total_higher_than_gross_total net_gt_gross_message)

-- `_validate_non_profit_cost_has_at_least_one_total`
validate_non_profit_cost_has_at_least_one_total : Claim → Check ClaimValidationError
validate_non_profit_cost_has_at_least_one_total c =
    raise_if (not (is_some c.net) && not (is_some c.gross) && not (is_some c.vat_zero_total))
      (error missing_non_profit_cost_total missing_non_profit_cost_total_message)

-- `_validate_non_profit_cost_gross_present_when_net_entered`
validate_non_profit_cost_gross_present_when_net_entered : Claim → Check ClaimValidationError
validate_non_profit_cost_gross_present_when_net_entered c =
    raise_if (is_some c.net && not (is_some c.gross))
      (error missing_gross_total_when_net_entered missing_gross_message)

-- `_normalize_non_profit_cost_totals`
normalize_non_profit_cost_totals : Claim → Claim
normalize_non_profit_cost_totals c = record c {
  net = some (value_or c.net (pos 0));
  gross = some (value_or (resolve_claim_total c.gross c.vat_zero_total) (pos 0));
  vat_zero_total = some (value_or c.vat_zero_total (pos 0));
}

-- `_validate_profit_cost`
validate_profit_cost : Claim → Check ClaimValidationError
validate_profit_cost c =
    let has_vat_zero : Bool = is_some c.vat_zero_total in
    let has_net : Bool = is_some c.net in
    let has_gross : Bool = is_some c.gross in
    raise_if (has_vat_zero && (has_net || has_gross))
      (error profit_cost_mixed_vat mixed_vat_message)
    >> raise_if (not has_vat_zero && not (has_net && has_gross) && (has_net && not has_gross))
        (error missing_gross_total_when_net_entered missing_gross_message)
    >> raise_if (not has_vat_zero && not (has_net && has_gross))
        (error missing_total_claim_cost missing_total_message)

-- `poa_type == POAType.PROFIT_COST`, for an optional type
abbrev pub is_profit_cost_poa : Option PoaType → Bool
is_profit_cost_poa = some_and is_profit_cost

-- `poa_type is not None and poa_type != POAType.PROFIT_COST`
abbrev pub is_other_poa : Option PoaType → Bool
is_other_poa = some_and (λ t. not (is_profit_cost t))

-- `validate_total_claim_cost`
unfoldable pub validate_total_claim_cost : Claim → Result ClaimValidationError Claim
unfolding validate_bill_totals validate_totals_consistency
    validate_non_profit_cost_has_at_least_one_total
    validate_non_profit_cost_gross_present_when_net_entered normalize_non_profit_cost_totals
    validate_profit_cost
validate_total_claim_cost c =
    if in_inquest_outcome_claim_types c.claim_type
    then (validate_bill_totals c >> ok c)
    else (validate_totals_consistency c
        >> (if is_payment_on_account c.claim_type && is_other_poa c.poa_type
            then (validate_non_profit_cost_has_at_least_one_total c
                >> validate_non_profit_cost_gross_present_when_net_entered c
                >> ok (normalize_non_profit_cost_totals c))
            else (if is_profit_cost_poa c.poa_type
                then (validate_profit_cost c >> ok c)
                else ok c)))
