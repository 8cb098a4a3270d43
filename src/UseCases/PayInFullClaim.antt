-- ===== src/UseCases/PayInFullClaim.antt =====
-- `PayInFullClaimUseCase` of app/use_cases/pay_in_full_claim.py.
pub mod Extract
pub mod Outcome
pub mod Numbering
use laa_inquests_api.Prelude.{
  ℕ, Bool, true, false, not, ◌&&◌, Option, none, some, List, [], ◌∷◌, all, is_some, Result, ok, err,
  ◌==◌, if◌then◌else◌,
}
use laa_inquests_api.Prelude.Int.{ℤ}
use laa_inquests_api.Text.{Text}
use laa_inquests_api.Enums.{
  ClaimStatus, ClaimDecisionStatus, HistoryEventReference, claim_assessment_completed,
  claim_approved_email, claim_final_bill_paid_email, caseworker, system, is_payment_on_account,
}
use laa_inquests_api.Exceptions.{application_not_found, invalid_claim}
use laa_inquests_api.Application.{Application}
use laa_inquests_api.PayInFull.{
  PayInFullClaim, validate, pay_in_full_claim_from_submitted_poa_claim,
}
use laa_inquests_api.Records.{ClaimRow, pay_in_full_data, email_data}
use laa_inquests_api.Store.{Session, Env, granted_decision, final_bill_paid}
use laa_inquests_api.Store.Actions.{
  Action, pure, raise, call, send, or_raise, commit, or_rollback, ◌>>=◌, ◌>>◌,
}
use laa_inquests_api.Store.Repository.{
  get_application_by_laa_reference, create_claim_decision, create_claim_decision_amount,
  update_claim_status, create_history_event,
}
use laa_inquests_api.UseCases.CreateClaim.{or_invalid}
use laa_inquests_api.UseCases.CreateClaim.Phases.{system_name}
use laa_inquests_api.UseCases.RejectClaim.{user_name, claim_for_assessment}
use Extract.{ExtractPorts, create_extract}

pub record PayInFullClaimCommand : Type 0 where
  pub laa_reference : Text
  pub claim_reference : Text
  pub profit_cost_net : Option ℤ
  pub profit_cost_gross : Option ℤ
  pub profit_cost_vat_zero : Option ℤ
  pub disbursement_net : Option ℤ
  pub disbursement_gross : Option ℤ
  pub disbursement_vat_zero : Option ℤ

has_no_amounts : PayInFullClaimCommand → Bool
has_no_amounts c =
    all (λ (amount : Option ℤ). not (is_some amount))
      (c.profit_cost_net ∷ c.profit_cost_gross ∷ c.profit_cost_vat_zero ∷ c.disbursement_net
        ∷ c.disbursement_gross ∷ c.disbursement_vat_zero ∷ [])

-- The amounts that `execute` decides on.
unfoldable pub decision_amounts : ClaimRow → PayInFullClaimCommand → PayInFullClaim
unfolding has_no_amounts
decision_amounts claim c =
    if is_payment_on_account claim.claim_type_id && has_no_amounts c
    then pay_in_full_claim_from_submitted_poa_claim claim.claim_type_id claim.poa_type_id
        claim.total_profit_cost_net claim.total_profit_cost_gross claim.total_profit_cost_vat_zero
    else record {
      claim_type_id = claim.claim_type_id;
      poa_type_id = claim.poa_type_id;
      profit_cost_net = c.profit_cost_net;
      profit_cost_gross = c.profit_cost_gross;
      profit_cost_vat_zero = c.profit_cost_vat_zero;
      disbursement_net = c.disbursement_net;
      disbursement_gross = c.disbursement_gross;
      disbursement_vat_zero = c.disbursement_vat_zero;
    }

-- `_send_pay_in_full_decision_email`
unfoldable pub send_decision_email : Application → ClaimRow → Action (Unit {0})
send_decision_email a claim =
    if is_payment_on_account claim.claim_type_id
    then (send (record {
      template = granted_decision;
      reference = claim.claim_reference;
      recipient_email = some a.provider.email_address;
    })
        >> create_history_event claim_approved_email system_name system a.application_id
            (email_data a.provider.email_address))
    else (send (record {
      template = final_bill_paid;
      reference = claim.claim_reference;
      recipient_email = some a.provider.email_address;
    })
        >> create_history_event claim_final_bill_paid_email system_name system a.application_id
            (email_data a.provider.email_address))

-- The writes of the `try` block after the checks, without the commit. The `call` before the email
-- looks up the firm's name.
unfoldable pub record_payment :
    ExtractPorts → Application → ClaimRow → PayInFullClaim → Action (Unit {0})
unfolding send_decision_email
record_payment ports a claim amounts = do
  d ← create_claim_decision claim.claim_id ClaimDecisionStatus.pay_in_full
  create_claim_decision_amount d.claim_decision_id amounts
  update_claim_status claim.claim_id ClaimStatus.pay_in_full
  create_extract ports a claim amounts d.created_at
  user ← user_name
  create_history_event claim_assessment_completed user caseworker a.application_id
      (pay_in_full_data claim.claim_type_id claim.claim_reference amounts)
  call (λ (s : Session). s)
  send_decision_email a claim

-- The `try` block.
unfoldable pub assessment : ExtractPorts → Application → PayInFullClaimCommand → Action (Unit {0})
assessment ports a c = do
  claim ← claim_for_assessment a c.claim_reference
  or_invalid (validate (decision_amounts claim c))
  record_payment ports a claim (decision_amounts claim c)
  commit

unfoldable pub execute : ExtractPorts → PayInFullClaimCommand → Action (Unit {0})
unfolding assessment
execute ports c = do
  found ← get_application_by_laa_reference c.laa_reference
  a ← or_raise found (application_not_found c.laa_reference)
  or_rollback (assessment ports a c)
