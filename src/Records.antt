-- ===== src/Records.antt =====
-- The tables of app/models/claim/index.py and app/models/history/index.py, a record for each row.
use laa_inquests_api.Prelude.{ℕ, Bool, List, Option, String}
use laa_inquests_api.Prelude.Int.{ℤ}
use laa_inquests_api.Text.{Text}
use laa_inquests_api.Calendar.{Date, Datetime}
use laa_inquests_api.Enums.{
  ClaimType, ClaimStatus, PoaType, NumberOfCounselInstructed, ClaimDecisionStatus, ReasonCode,
  InvoiceTypeCode, TaxCode, InquestOutcomeCode, ActorType, HistoryEventReference, ReasonForRefusal,
}
use laa_inquests_api.PayInFull.{PayInFullClaim}

-- `Claim`, the table; `class Claim` of app/domain/claim.py is another.
pub record ClaimRow : Type 0 where
  pub claim_id : ℕ
  pub application_id : ℕ
  pub claim_reference : Text
  pub claim_type_id : ClaimType
  pub status_id : ClaimStatus
  pub submission_date : Datetime
  pub total_profit_cost_net : Option ℤ
  pub total_profit_cost_gross : Option ℤ
  pub total_profit_cost_vat_zero : Option ℤ
  pub total_funds_remaining_after_claim : ℤ
  pub claimant_id : Option Text
  pub poa_type_id : Option PoaType
  pub has_counsel_been_paid : Option Bool
  pub has_alternative_funding : Option Bool
  pub has_recovery_costs_awarded : Option Bool
  pub financial_recovery_previous_pre_certificate_costs : Option ℤ
  pub financial_recovery_cost : Option ℤ
  pub financial_recovery_damages : Option ℤ
  pub financial_recovery_interest : Option ℤ
  pub paying_party : Option String
  pub number_of_counsel_instructed : Option NumberOfCounselInstructed

pub record ClaimCostTemplate : Type 0 where
  pub claim_id : ℕ
  pub claim_cost_template_file_id : ℕ
  pub claim_cost_template_file_name : String

pub record ClaimInquestOutcome : Type 0 where
  pub claim_id : ℕ
  pub inquest_outcome_id : InquestOutcomeCode

pub record ClaimDecision : Type 0 where
  pub claim_decision_id : ℕ
  pub claim_id : ℕ
  pub decision : ClaimDecisionStatus
  pub created_at : Datetime

pub record DecisionReason : Type 0 where
  pub claim_decision_id : ℕ
  pub reason_code : ReasonCode
  pub justification : Option Text

-- The amounts of a `PayInFullClaim` are the columns.
pub record ClaimDecisionAmount : Type 0 where
  pub claim_decision_id : ℕ
  pub amounts : PayInFullClaim

pub record ClaimPaymentExtract : Type 0 where
  pub claim_id : ℕ
  pub sequence_number : ℕ
  pub invoice_number : Text
  pub invoice_amount : ℤ
  pub invoice_date : Date
  pub invoice_type : InvoiceTypeCode
  pub tax_code : TaxCode

pub record ClaimEvidence : Type 0 where
  pub claim_evidence_id : ℕ  -- a UUID
  pub sds_file_name : Text
  pub file_name : Text
  pub file_size : Option ℕ
  pub claim_id : Option ℕ

-- `DuplicateApplicationRecord` of app/models/application/index.py
pub record DuplicateApplicationRecord : Type 0 where
  pub application_id : ℕ
  pub duplicate_application_id : ℕ

-- What the use cases store as `event_data`: nothing, or a dictionary.
pub data EventData : Type 0 where
  no_data : EventData
  note_data : Text → EventData
  grant_data : EventData
  refusal_data : ReasonForRefusal → Text → EventData
  certificate_data : Text → EventData
  letter_data : List (String × Option Text) → EventData
  public_bodies_data : List Text → List Text → EventData
  submission_data : ClaimType → Text → EventData
  email_data : Text → EventData
  claim_reference_data : Text → EventData
  pay_in_full_data : ClaimType → Text → PayInFullClaim → EventData
  rejection_data : ClaimType → Text → Text → EventData

pub record HistoryEvent : Type 0 where
  pub event_reference : HistoryEventReference
  pub timestamp : Datetime
  pub actor : Text
  pub actor_type : ActorType
  pub entra_user_object_id : Option Text
  pub actor_email_address : Option Text
  pub application_id : ℕ
  pub event_data : EventData
