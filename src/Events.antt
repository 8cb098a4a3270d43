-- ===== src/Events.antt =====
-- The dictionaries that stand in the column `event_data` of app/models/history/index.py, as the
-- use cases under app/use_cases/ build them and as the reports read them back from JSON.
use laa_inquests_api.Prelude.{Option, none, some, List, [], ◌∷◌, String, if◌then◌else◌}
use text.Mathlib.Text.{◌==◌}
use laa_inquests_api.Prelude.Int.{ℤ}
use laa_inquests_api.Text.{Text, codes}
use laa_inquests_api.Enums.{
  ClaimType, payment_on_account, final_bill, nil_bill, ReasonForRefusal, not_in_scope,
  insufficient_information, duplicate_case, HistoryEventReference, case_note_added,
  application_submitted, application_assessment_completed, certificate_created,
  interested_party_updated, claim_assessment_completed, poa_auto_approved, poa_auto_rejected,
  application_submission_confirmation, application_granted_email, application_granted_letter,
  application_refused, claim_submission_confirmation, claim_approved_email, claim_rejected_email,
}
use laa_inquests_api.Records.{
  EventData, no_data, note_data, grant_data, refusal_data, certificate_data, letter_data,
  public_bodies_data, submission_data, email_data, claim_reference_data, pay_in_full_data,
  rejection_data,
}

-- A JSON value.
pub data EventValue : Type 0 where
  null : EventValue
  string : Text → EventValue
  strings : List Text → EventValue
  address : List (String × Option Text) → EventValue

abbrev pub Dict : Type 0
Dict = List (String × EventValue)

-- `d.get(key)` and the lookup of `d[key]`
unfoldable pub lookup {ℓ} : {V : Type ℓ} → String → List (String × V) → Option V
lookup k [] = none
lookup k ((j, v) ∷ m) = if j == k then some v else lookup k m

-- `ClaimType(...).value`
abbrev pub claim_type_value : ClaimType → Text
claim_type_value payment_on_account = codes "PAYMENT_ON_ACCOUNT"
claim_type_value final_bill = codes "FINAL_BILL"
claim_type_value nil_bill = codes "NIL_BILL"

-- `ReasonForRefusal(...).value`
abbrev pub reason_for_refusal_value : ReasonForRefusal → Text
reason_for_refusal_value not_in_scope = codes "NOT_IN_SCOPE"
reason_for_refusal_value insufficient_information = codes "INSUFFICIENT_INFORMATION"
reason_for_refusal_value duplicate_case = codes "DUPLICATE_CASE"

-- `HistoryEventReference(...).value`
abbrev pub reference_value : HistoryEventReference → String
reference_value case_note_added = "EVT-BUS-X-001"
reference_value application_submitted = "EVT-BUS-APP-001"
reference_value application_assessment_completed = "EVT-BUS-APP-002"
reference_value certificate_created = "EVT-BUS-APP-003"
reference_value interested_party_updated = "EVT-BUS-APP-004"
reference_value HistoryEventReference.claim_submitted = "EVT-BUS-CLM-001"
reference_value claim_assessment_completed = "EVT-BUS-CLM-002"
reference_value poa_auto_approved = "EVT-BUS-CLM-003"
reference_value poa_auto_rejected = "EVT-BUS-CLM-004"
reference_value application_submission_confirmation = "EVT-COM-APP-001"
reference_value application_granted_email = "EVT-COM-APP-002"
reference_value application_granted_letter = "EVT-COM-APP-003"
reference_value application_refused = "EVT-COM-APP-004"
reference_value claim_submission_confirmation = "EVT-COM-CLM-001"
reference_value claim_approved_email = "EVT-COM-CLM-002"
reference_value claim_rejected_email = "EVT-COM-CLM-003"

-- `_to_json_amount`; `str_amount` is the text of an amount as a decimal number, whose decimal places
-- the model does not keep.
abbrev to_json_amount : (ℤ → Text) → Option ℤ → EventValue
to_json_amount str_amount none = null
to_json_amount str_amount (some a) = string (str_amount a)

-- The dictionary of each kind of event data.
unfoldable pub event_dict : (ℤ → Text) → EventData → Option Dict
unfolding lookup
event_dict str_amount no_data = none
event_dict str_amount (note_data note_text) = some (("note_text", string note_text) ∷ [])
event_dict str_amount grant_data = some (("merits_decision", string (codes "Granted")) ∷ [])
event_dict str_amount (refusal_data reason justification) = some (
    ("merits_decision", string (codes "Refused"))
    ∷ ("refusal_reason", string (reason_for_refusal_value reason))
    ∷ ("refusal_justification", string justification)
    ∷ [])
event_dict str_amount (certificate_data laa_reference) =
    some (("laa_reference", string laa_reference) ∷ [])
event_dict str_amount (letter_data recipient) =
    some (("recipient", address recipient) ∷ ("channel", string (codes "letter")) ∷ [])
event_dict str_amount (public_bodies_data old new) =
    some (("old_public_bodies", strings old) ∷ ("new_public_bodies", strings new) ∷ [])
event_dict str_amount (submission_data type claim_reference) = some (
    ("claim_type", string (claim_type_value type))
    ∷ ("claim_reference", string claim_reference)
    ∷ [])
event_dict str_amount (email_data recipient) =
    some (("recipient", string recipient) ∷ ("channel", string (codes "email")) ∷ [])
event_dict str_amount (claim_reference_data claim_reference) =
    some (("claim_reference", string claim_reference) ∷ [])
event_dict str_amount (pay_in_full_data type claim_reference a) = some (
    ("claim_type", string (claim_type_value type))
    ∷ ("claim_reference", string claim_reference)
    ∷ ("claim_decision", string (codes "PAY_IN_FULL"))
    ∷ ("profit_cost_net", to_json_amount str_amount a.profit_cost_net)
    ∷ ("profit_cost_gross", to_json_amount str_amount a.profit_cost_gross)
    ∷ ("profit_cost_vat_zero", to_json_amount str_amount a.profit_cost_vat_zero)
    ∷ ("disbursement_net", to_json_amount str_amount a.disbursement_net)
    ∷ ("disbursement_gross", to_json_amount str_amount a.disbursement_gross)
    ∷ ("disbursement_vat_zero", to_json_amount str_amount a.disbursement_vat_zero)
    ∷ [])
event_dict str_amount (rejection_data type claim_reference justification) = some (
    ("claim_type", string (claim_type_value type))
    ∷ ("claim_reference", string claim_reference)
    ∷ ("claim_decision", string (codes "REJECTED"))
    ∷ ("decision_justification", string justification)
    ∷ [])
