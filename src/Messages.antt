-- ===== src/Messages.antt =====
-- The validation errors of claims: app/domain/claim_error.py and the message constants of
-- app/domain/constants/claim_messages.py.

-- `ClaimErrorCode`
pub data ClaimErrorCode : Type 0 where
  missing_total_claim_cost missing_non_profit_cost_total : ClaimErrorCode
  missing_gross_total_when_net_entered missing_net_total_when_gross_entered : ClaimErrorCode
  profit_cost_mixed_vat net_total_higher_than_gross_total negative_net_cost : ClaimErrorCode
  missing_poa_type_for_payment_on_account : ClaimErrorCode
  poa_type_not_allowed_for_non_payment_on_account : ClaimErrorCode
  missing_claim_evidence claim_evidence_not_allowed application_not_granted : ClaimErrorCode
  missing_inquest_outcomes inquest_outcomes_not_allowed : ClaimErrorCode
  missing_cost_template_file cost_template_file_not_allowed : ClaimErrorCode
  missing_final_bill_details final_bill_details_not_allowed : ClaimErrorCode
  missing_counsel_details counsel_details_not_allowed : ClaimErrorCode
  net_total_not_allowed_for_bill vat_zero_total_not_allowed_for_bill : ClaimErrorCode
  missing_gross_total_for_bill final_bill_gross_must_be_positive : ClaimErrorCode
  nil_bill_gross_must_be_zero missing_disbursement_total : ClaimErrorCode
  missing_disbursement_gross_when_net_entered : ClaimErrorCode
  missing_disbursement_net_when_gross_entered : ClaimErrorCode
  disbursement_gross_not_greater_than_total : ClaimErrorCode
  profit_cost_not_allowed_for_nil_bill_claim : ClaimErrorCode
  disbursement_not_allowed_for_nil_bill_claim : ClaimErrorCode
  profit_cost_not_allowed_for_poa_claim disbursement_not_allowed_for_poa_claim : ClaimErrorCode
  active_final_bill_exists provider_office_id_mismatch : ClaimErrorCode

-- The constants that name a message; `claim_evidence_is_required` is the one that
-- app/use_cases/create_claim.py writes out.
pub data Message : Type 0 where
  mixed_vat_message missing_gross_message missing_non_profit_cost_total_message : Message
  missing_total_message negative_net_message net_gt_gross_message : Message
  missing_poa_type_message poa_not_allowed_message application_not_granted_message : Message
  missing_inquest_outcomes_message inquest_outcomes_not_allowed_message : Message
  missing_cost_template_file_message cost_template_file_not_allowed_message : Message
  missing_final_bill_details_message final_bill_details_not_allowed_message : Message
  missing_counsel_details_message counsel_details_not_allowed_message : Message
  net_total_not_allowed_for_bill_message : Message
  vat_zero_total_not_allowed_for_bill_message : Message
  missing_gross_total_for_bill_message final_bill_gross_must_be_positive_message : Message
  nil_bill_gross_must_be_zero_message claim_evidence_not_allowed_message : Message
  active_final_bill_exists_message : Message
  pif_missing_total_claim_cost_message pif_profit_cost_mixed_vat_message : Message
  pif_missing_gross_total_message pif_missing_net_total_message : Message
  pif_profit_cost_not_allowed_for_nil_bill_message : Message
  pif_profit_cost_not_allowed_for_poa_message : Message
  disb_missing_total_message disb_missing_gross_total_message : Message
  disb_missing_net_total_message disb_gross_not_greater_than_total_message : Message
  disb_not_allowed_for_nil_bill_message disb_not_allowed_for_poa_message : Message
  claim_evidence_is_required : Message

-- `ClaimValidationError`, and the fields of `InvalidClaimError` that carry it on
pub record ClaimValidationError : Type 0 where
  pub code : ClaimErrorCode
  pub message : Message

abbrev pub error : ClaimErrorCode → Message → ClaimValidationError
error c m = record { code = c; message = m }
