-- ===== src/UseCases/History.antt =====
-- The events that the claim use cases write, method by method and use case by use case.
pub mod Claims
pub mod Submission
use laa_inquests_api.Prelude.{ℕ, Bool, Option, none, some, List, [], ◌∷◌, refl, String}
use laa_inquests_api.Prelude.Int.{ℤ}
use laa_inquests_api.Text.{Text}
use laa_inquests_api.Enums.{ClaimStatus, ClaimDecisionStatus, ReasonCode, InquestOutcomeCode}
use laa_inquests_api.Application.{Application}
use laa_inquests_api.Claim.{Claim}
use laa_inquests_api.PayInFull.{PayInFullClaim}
use laa_inquests_api.PaymentExtract.{PaymentExtractLine}
use laa_inquests_api.Records.{ClaimRow}
use laa_inquests_api.Store.{Session}
use laa_inquests_api.Store.Tables.{add_decision, set_status, link_one}
use laa_inquests_api.Store.Actions.{pure, call}
use laa_inquests_api.Store.Repository.{
  create_claim_decision, create_claim_decision_amount, create_decision_reason, update_claim_status,
  create_payment_extract, link_evidence_to_claim, link_inquest_outcomes_to_claim,
  link_cost_template_to_claim, get_application_by_laa_reference, get_claim_by_reference, update,
}
use laa_inquests_api.Store.History.{
  Records, Records-call, records_rules, Records-update, Records-pure, Records-bind,
  Records-for_each, rejected, rejection_emailed,
}
use laa_inquests_api.UseCases.RejectClaim

pub Records-create_claim_decision :
    (claim : ℕ) (status : ClaimDecisionStatus) → Records (create_claim_decision claim status)
unfolding create_claim_decision add_decision
Records-create_claim_decision claim status = record {
  at = λ env s.
      (Records-bind (update (add_decision _)) _ (Records-update (add_decision _) (λ db. refl))
          (λ _. Records-pure _)).at
        env s;
}

pub Records-create_claim_decision_amount :
    (decision : ℕ) (a : PayInFullClaim) → Records (create_claim_decision_amount decision a)
unfolding create_claim_decision_amount
Records-create_claim_decision_amount decision a = Records-update _ (λ db. refl)

pub Records-create_decision_reason :
    (decision : ℕ) (code : ReasonCode) (why : Option Text)
    → Records (create_decision_reason decision code why)
unfolding create_decision_reason
Records-create_decision_reason decision code why = Records-update _ (λ db. refl)

Records-set_status : (claim : ℕ) (status : ClaimStatus) → Records (update (set_status claim status))
unfolding set_status
Records-set_status claim status = Records-update (set_status claim status) (λ db. refl)

pub Records-update_claim_status :
    (claim : ℕ) (status : ClaimStatus) → Records (update_claim_status claim status)
unfolding update_claim_status
Records-update_claim_status claim status = search (records_rules, Records-set_status) depth 9

pub Records-create_payment_extract :
    (claim : ℕ) (lines : List PaymentExtractLine) → Records (create_payment_extract claim lines)
unfolding create_payment_extract
Records-create_payment_extract claim lines =
    Records-for_each _ lines (λ l. Records-update _ (λ db. refl))

pub Records-lookup : Records (call (λ (s : Session). s))
Records-lookup = Records-call (λ s. s) (λ s h. h)

pub ruleset claim_rules = (
  records_rules, Records-create_claim_decision, Records-create_claim_decision_amount,
  Records-create_decision_reason, Records-update_claim_status, Records-create_payment_extract,
  Records-lookup,
)
