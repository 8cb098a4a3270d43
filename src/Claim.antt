-- ===== src/Claim.antt =====
-- `class Claim` of app/domain/claim.py: a submitted claim, checked when it is constructed.
pub mod Totals
pub mod Review
pub mod Rules
use laa_inquests_api.Prelude.{
  ℕ, Bool, not, ◌&&◌, ◌||◌, Option, List, [], ◌∷◌, is_some, is_empty, all, any, Check, ◌>>◌,
  raise_if, String,
}
use laa_inquests_api.Prelude.Int.{ℤ}
use laa_inquests_api.Enums.{
  ClaimType, PoaType, InquestOutcomeCode, NumberOfCounselInstructed, is_payment_on_account,
  is_final_bill, is_nil_bill,
}
use laa_inquests_api.Messages.{
  ClaimValidationError, error, missing_poa_type_for_payment_on_account, missing_poa_type_message,
  poa_type_not_allowed_for_non_payment_on_account, poa_not_allowed_message,
  missing_inquest_outcomes, missing_inquest_outcomes_message, inquest_outcomes_not_allowed,
  inquest_outcomes_not_allowed_message, missing_cost_template_file,
  missing_cost_template_file_message, cost_template_file_not_allowed,
  cost_template_file_not_allowed_message, missing_final_bill_details,
  missing_final_bill_details_message, final_bill_details_not_allowed,
  final_bill_details_not_allowed_message, missing_counsel_details, missing_counsel_details_message,
  counsel_details_not_allowed, counsel_details_not_allowed_message,
}

pub record Claim : Type 0 where
  pub claim_type : ClaimType
  pub poa_type : Option PoaType
  pub net : Option ℤ
  pub gross : Option ℤ
  pub vat_zero_total : Option ℤ
  pub inquest_outcomes : List InquestOutcomeCode
  pub cost_template_file_id : Option ℕ  -- a UUID
  pub cost_template_file_name : Option String
  pub has_counsel_been_paid : Option Bool
  pub has_alternative_funding : Option Bool
  pub has_recovery_costs_awarded : Option Bool
  pub financial_recovery_previous_pre_certificate_costs : Option ℤ
  pub financial_recovery_cost : Option ℤ
  pub financial_recovery_damages : Option ℤ
  pub financial_recovery_interest : Option ℤ
  pub paying_party : Option String
  pub number_of_counsel_instructed : Option NumberOfCounselInstructed

-- `claim_type in INQUEST_OUTCOME_CLAIM_TYPES`; `FINAL_BILL_CLAIM_TYPES` has the same members.
abbrev pub in_inquest_outcome_claim_types : ClaimType → Bool
in_inquest_outcome_claim_types t = is_final_bill t || is_nil_bill t

-- `claim_type in COST_TEMPLATE_CLAIM_TYPES`
abbrev pub in_cost_template_claim_types : ClaimType → Bool
in_cost_template_claim_types = is_final_bill

-- `claim_type in COUNSEL_DETAIL_CLAIM_TYPES`
abbrev pub in_counsel_detail_claim_types : ClaimType → Bool
in_counsel_detail_claim_types = is_final_bill

-- `_validate_claim_type_poa_combination`
validate_claim_type_poa_combination : Claim → Check ClaimValidationError
validate_claim_type_poa_combination c =
    raise_if (is_payment_on_account c.claim_type && not (is_some c.poa_type))
      (error missing_poa_type_for_payment_on_account missing_poa_type_message)
    >> raise_if (not (is_payment_on_account c.claim_type) && is_some c.poa_type)
        (error poa_type_not_allowed_for_non_payment_on_account poa_not_allowed_message)

-- `_validate_inquest_outcomes`
validate_inquest_outcomes : Claim → Check ClaimValidationError
validate_inquest_outcomes c =
    raise_if (in_inquest_outcome_claim_types c.claim_type && is_empty c.inquest_outcomes)
      (error missing_inquest_outcomes missing_inquest_outcomes_message)
    >> raise_if
        (not (in_inquest_outcome_claim_types c.claim_type) && not (is_empty c.inquest_outcomes))
        (error inquest_outcomes_not_allowed inquest_outcomes_not_allowed_message)

has_cost_template_file : Claim → Bool
has_cost_template_file c = is_some c.cost_template_file_id && is_some c.cost_template_file_name

-- `_validate_cost_template_file`
validate_cost_template_file : Claim → Check ClaimValidationError
unfolding has_cost_template_file
validate_cost_template_file c =
    raise_if (in_cost_template_claim_types c.claim_type && not (has_cost_template_file c))
      (error missing_cost_template_file missing_cost_template_file_message)
    >> raise_if (not (in_cost_template_claim_types c.claim_type) && has_cost_template_file c)
        (error cost_template_file_not_allowed cost_template_file_not_allowed_message)

-- `[value is not None for value in recovery_detail_values]`
recovery_details : Claim → List Bool
recovery_details c =
    is_some c.has_alternative_funding
    ∷ is_some c.has_recovery_costs_awarded
    ∷ is_some c.financial_recovery_previous_pre_certificate_costs
    ∷ is_some c.financial_recovery_cost
    ∷ is_some c.financial_recovery_damages
    ∷ is_some c.financial_recovery_interest
    ∷ is_some c.paying_party
    ∷ []

abbrev same : Bool → Bool
same b = b

-- `_validate_recovery_details`
validate_recovery_details : Claim → Check ClaimValidationError
unfolding recovery_details
validate_recovery_details c =
    raise_if (in_inquest_outcome_claim_types c.claim_type && not (all same (recovery_details c)))
      (error missing_final_bill_details missing_final_bill_details_message)
    >> raise_if (not (in_inquest_outcome_claim_types c.claim_type) && any same (recovery_details c))
        (error final_bill_details_not_allowed final_bill_details_not_allowed_message)

-- `[value is not None for value in counsel_detail_values]`
counsel_details : Claim → List Bool
counsel_details c = is_some c.has_counsel_been_paid ∷ is_some c.number_of_counsel_instructed ∷ []

-- `_validate_counsel_details`
validate_counsel_details : Claim → Check ClaimValidationError
unfolding counsel_details
validate_counsel_details c =
    raise_if (in_counsel_detail_claim_types c.claim_type && not (all same (counsel_details c)))
      (error missing_counsel_details missing_counsel_details_message)
    >> raise_if (not (in_counsel_detail_claim_types c.claim_type) && any same (counsel_details c))
        (error counsel_details_not_allowed counsel_details_not_allowed_message)

-- `__post_init__`
unfoldable pub post_init : Claim → Check ClaimValidationError
unfolding validate_claim_type_poa_combination validate_inquest_outcomes validate_cost_template_file
    validate_recovery_details validate_counsel_details
post_init c =
    validate_claim_type_poa_combination c
    >> validate_inquest_outcomes c
    >> validate_cost_template_file c
    >> validate_recovery_details c
    >> validate_counsel_details c
