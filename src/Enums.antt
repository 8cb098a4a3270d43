-- ===== src/Enums.antt =====
-- The enumerations of app/models/claim/enums.py, app/models/application/enums.py,
-- app/models/history/enums.py and app/domain/claim_rejection.py that the claim logic reads.
use laa_inquests_api.Prelude.{Bool, true, false}

pub data ClaimType : Type 0 where
  payment_on_account final_bill nil_bill : ClaimType

pub data ClaimStatus : Type 0 where
  submitted accepted pay_in_full rejected rejected_with_amendment : ClaimStatus

pub data PoaType : Type 0 where
  profit_cost expert_cost non_expert_disbursement : PoaType

pub data NumberOfCounselInstructed : Type 0 where
  zero_counsel one two three four five six more_than_6 : NumberOfCounselInstructed

pub data ClaimDecisionStatus : Type 0 where
  reject grant pay_in_full pending : ClaimDecisionStatus

pub data ReasonCode : Type 0 where
  max_poa_claims_exceeded : ReasonCode
  claim_exceeds_substantive_cost_limit : ReasonCode
  application_claims_exceed_cost_limit : ReasonCode
  profit_cost_poa_claim_submitted_too_early : ReasonCode
  manual_rejection : ReasonCode

pub data InvoiceTypeCode : Type 0 where
  final_bill_fees final_bill_disbursement poa recouped : InvoiceTypeCode

pub data TaxCode : Type 0 where
  gb_vat_20 zero_vat : TaxCode

pub data InquestOutcomeCode : Type 0 where
  accident_or_misadventure alcohol_or_drugs_related industrial_disease : InquestOutcomeCode
  narrative_conclusion natural_causes open_conclusion road_traffic_collision : InquestOutcomeCode
  stillbirth suicide unlawful_or_lawful_killing : InquestOutcomeCode

pub data MeritsDecision : Type 0 where
  submitted refused granted : MeritsDecision

pub data ReasonForRefusal : Type 0 where
  not_in_scope insufficient_information duplicate_case : ReasonForRefusal

pub data ClaimRejectionReason : Type 0 where
  max_poa_claims_exceeded : ClaimRejectionReason
  claim_exceeds_substantive_cost_limit : ClaimRejectionReason
  application_claims_exceed_cost_limit : ClaimRejectionReason
  profit_cost_poa_claim_submitted_too_early : ClaimRejectionReason

pub data ActorType : Type 0 where
  system caseworker provider : ActorType

pub data HistoryEventReference : Type 0 where
  case_note_added : HistoryEventReference
  application_submitted application_assessment_completed : HistoryEventReference
  certificate_created interested_party_updated : HistoryEventReference
  claim_submitted claim_assessment_completed : HistoryEventReference
  poa_auto_approved poa_auto_rejected : HistoryEventReference
  application_submission_confirmation application_granted_email : HistoryEventReference
  application_granted_letter application_refused : HistoryEventReference
  claim_submission_confirmation claim_approved_email claim_rejected_email : HistoryEventReference

-- `CLAIM_FINAL_BILL_PAID_EMAIL` has the value of `CLAIM_APPROVED_EMAIL`, which makes it an alias
-- of that member.
abbrev pub claim_final_bill_paid_email : HistoryEventReference
claim_final_bill_paid_email = claim_approved_email

-- `claim_type == ClaimType.PAYMENT_ON_ACCOUNT`, and the like
abbrev pub is_payment_on_account : ClaimType → Bool
is_payment_on_account payment_on_account = true
is_payment_on_account _ = false

abbrev pub is_final_bill : ClaimType → Bool
is_final_bill final_bill = true
is_final_bill _ = false

abbrev pub is_nil_bill : ClaimType → Bool
is_nil_bill nil_bill = true
is_nil_bill _ = false

abbrev pub is_profit_cost : PoaType → Bool
is_profit_cost profit_cost = true
is_profit_cost _ = false

abbrev pub is_submitted : ClaimStatus → Bool
is_submitted ClaimStatus.submitted = true
is_submitted _ = false

abbrev pub is_paid_in_full : ClaimStatus → Bool
is_paid_in_full ClaimStatus.pay_in_full = true
is_paid_in_full _ = false

abbrev pub is_granted : MeritsDecision → Bool
is_granted granted = true
is_granted _ = false

pub data AddressSource : Type 0 where
  use_client_home_address use_provider_address use_specified_address : AddressSource

pub data CorrespondenceRecipientType : Type 0 where
  person organisation : CorrespondenceRecipientType
