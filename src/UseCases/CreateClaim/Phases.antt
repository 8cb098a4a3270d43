-- ===== src/UseCases/CreateClaim/Phases.antt =====
-- The parts of `CreateClaimUseCase.execute` (app/use_cases/create_claim.py) that write: the
-- submission, the confirmation email, the automatic rejection and the automatic approval. Each is a
-- transaction of its own.
use laa_inquests_api.Prelude.{
  ℕ, Bool, not, ◌&&◌, ◌||◌, is_some, Option, none, some, List, [], ◌∷◌, map, String, ok, err,
  if◌then◌else◌,
}
use laa_inquests_api.Prelude.Int.{ℤ}
use laa_inquests_api.Text.{Text}
use laa_inquests_api.Enums.{
  ClaimType, ClaimStatus, PoaType, InquestOutcomeCode, NumberOfCounselInstructed,
  ClaimDecisionStatus, ReasonCode, ClaimRejectionReason, HistoryEventReference,
  is_payment_on_account, is_profit_cost, claim_submission_confirmation, poa_auto_approved,
  poa_auto_rejected, system, provider,
}
use laa_inquests_api.Money.{resolve_claim_total}
use laa_inquests_api.Application.{Application}
use laa_inquests_api.Claim.{Claim}
use laa_inquests_api.Claim.Totals.{some_and}
use laa_inquests_api.Claim.Review.{
  ExistingClaimSummary, should_auto_reject, requires_manual_review, is_eligible_for_auto_approval,
  is_rejected,
}
use laa_inquests_api.PayInFull.{pay_in_full_claim_from_submitted_poa_claim, PayInFullClaim}
use laa_inquests_api.PaymentExtract.{poa_claim_payment_extract_lines}
use laa_inquests_api.Records.{ClaimRow, submission_data, email_data, claim_reference_data}
use laa_inquests_api.Store.{Session, Env, submit_confirmation}
use laa_inquests_api.Store.Actions.{
  Action, pure, call, send, commit, or_rollback, or_else, reload, roll_back, for_each, ◌>>=◌, ◌>>◌,
}
use laa_inquests_api.Store.Repository.{
  create_claim, link_evidence_to_claim, link_inquest_outcomes_to_claim, link_cost_template_to_claim,
  create_claim_decision, create_claim_decision_amount, create_decision_reason,
  create_payment_extract, update_claim_status, create_history_event,
}

-- Which of the use case's optional ports are given.
pub record Ports : Type 0 where
  pub gov_notify : Bool
  pub decision : Bool
  pub decision_amount : Bool
  pub decision_reason : Bool
  pub claim_status : Bool
  pub get_claim_decision : Bool
  pub payment_extract : Bool
  pub provider_details : Bool

pub record CreateClaimCommand : Type 0 where
  pub laa_reference : Text
  pub firm_code : Text
  pub office_codes : List Text
  pub claim_type : ClaimType
  pub poa_type : Option PoaType
  pub net : Option ℤ
  pub gross : Option ℤ
  pub vat_zero_total : Option ℤ
  pub claimant_id : Option Text
  pub claim_evidence_ids : Option (List ℕ)
  pub inquest_outcomes : List InquestOutcomeCode
  pub cost_template_file_id : Option ℕ
  pub cost_template_file_name : Option String
  pub has_counsel_been_paid : Option Bool
  pub has_alternative_funding : Option Bool
  pub has_recovery_costs_awarded : Option Bool
  pub financial_recovery_previous_pre_certificate_costs : Option ℤ
  pub financial_recovery_cost : Option ℤ
  pub financial_recovery_damages : Option ℤ
  pub financial_recovery_interest : Option ℤ
  pub paying_party : Option String
  pub number_of_counsel_instructed : Option NumberOfCounselInstructed

pub record CreateClaimResult : Type 0 where
  pub claim : ClaimRow
  pub rejection_reasons : Option (List ReasonCode)

-- `ActorType.SYSTEM`, as the name of an actor
abbrev pub system_name : Option Text
system_name = some (b'S' ∷ b'y' ∷ b's' ∷ b't' ∷ b'e' ∷ b'm' ∷ [])

unfoldable pub link_evidence : ℕ → Option (List ℕ) → Action (Unit {0})
link_evidence claim none = pure tt
link_evidence claim (some ids) = link_evidence_to_claim claim ids

unfoldable pub link_cost_template : ℕ → Option ℕ → Option String → Action (Unit {0})
link_cost_template claim (some id) (some name) = link_cost_template_to_claim claim id name
link_cost_template claim _ _ = pure tt

-- The writes of the submission, without its commit.
unfoldable pub submission : CreateClaimCommand → Application → Claim → ℤ → Action ClaimRow
unfolding link_evidence link_cost_template
submission c a claim funds = do
  row ← create_claim a.application_id claim c.claimant_id funds
  link_evidence row.claim_id c.claim_evidence_ids
  link_inquest_outcomes_to_claim row.claim_id c.inquest_outcomes
  link_cost_template row.claim_id c.cost_template_file_id c.cost_template_file_name
  create_history_event HistoryEventReference.claim_submitted c.claimant_id provider a.application_id
      (submission_data c.claim_type row.claim_reference)
  pure row

-- The `try` block of the submission; the log reads the claim again after the commit.
unfoldable pub submit : CreateClaimCommand → Application → Claim → ℤ → Action ClaimRow
unfolding submission
submit c a claim funds =
    or_rollback (submission c a claim funds >>= λ row. commit >> (reload >> pure row))

unfoldable pub confirmation : Application → ClaimRow → Action (Unit {0})
confirmation a row = do
  create_history_event claim_submission_confirmation system_name system a.application_id
      (email_data a.provider.email_address)
  call (λ (s : Session). s)
  send (record {
    template = submit_confirmation;
    reference = row.claim_reference;
    recipient_email = some a.provider.email_address;
  })
  commit

-- `try: m except Exception: rollback`, whose log reads the claim before the rollback
abbrev pub or_forget : Action (Unit {0}) → Action (Unit {0})
or_forget m = or_else m tt (reload >> roll_back)

-- The confirmation email; its first `call` looks up the firm's name.
unfoldable pub notify : Ports → Application → ClaimRow → Action (Unit {0})
unfolding confirmation
notify ports a row =
    if ports.gov_notify && ports.provider_details then or_forget (confirmation a row) else pure tt

-- `ReasonCode(reason.value)`
abbrev pub reason_code_of : ClaimRejectionReason → ReasonCode
reason_code_of ClaimRejectionReason.max_poa_claims_exceeded = ReasonCode.max_poa_claims_exceeded
reason_code_of ClaimRejectionReason.claim_exceeds_substantive_cost_limit =
    ReasonCode.claim_exceeds_substantive_cost_limit
reason_code_of ClaimRejectionReason.application_claims_exceed_cost_limit =
    ReasonCode.application_claims_exceed_cost_limit
reason_code_of ClaimRejectionReason.profit_cost_poa_claim_submitted_too_early =
    ReasonCode.profit_cost_poa_claim_submitted_too_early

unfoldable pub rejection : Application → ClaimRow → List ReasonCode → Action (Unit {0})
rejection a row codes = do
  d ← create_claim_decision row.claim_id ClaimDecisionStatus.reject
  for_each (λ code. create_decision_reason d.claim_decision_id code none) codes
  update_claim_status row.claim_id ClaimStatus.rejected
  create_history_event poa_auto_rejected system_name system a.application_id
      (claim_reference_data row.claim_reference)
  commit

-- Whether should_auto_reject or requires_manual_review reads the application, which the commits
-- before them have expired.
unfoldable pub reviews_application : Claim → Bool
reviews_application claim =
    is_payment_on_account claim.claim_type
      && is_some (resolve_claim_total claim.gross claim.vat_zero_total)
    || some_and is_profit_cost claim.poa_type

-- That read, outside every `try`
unfoldable pub reload_application : Claim → Action (Unit {0})
unfolding reviews_application
reload_application claim = if reviews_application claim then reload else pure tt

-- A `try` block whose success gives the claim in memory a new status and whose failure gives it
-- back the status SUBMITTED; the log of a failure reads the claim after the rollback.
abbrev pub decide :
    Action (Unit {0}) → CreateClaimResult → CreateClaimResult → Action CreateClaimResult
decide m success failure = or_else m success (roll_back >> (reload >> pure failure))

abbrev pub in_status : ClaimStatus → ClaimRow → ClaimRow
in_status status row = record row { status_id = status }

unfoldable pub auto_reject :
    Ports → Claim → Application → List ExistingClaimSummary → ClaimRow → Action CreateClaimResult
unfolding rejection
auto_reject ports claim a existing row env s =
    let reasons : List ClaimRejectionReason = should_auto_reject claim a existing env.now in
    let codes : List ReasonCode = map reason_code_of reasons in
    if is_rejected reasons && ports.decision && ports.decision_reason && ports.claim_status
    then decide (rejection a row codes)
        (record { claim = in_status ClaimStatus.rejected row; rejection_reasons = some codes })
        (record { claim = in_status ClaimStatus.submitted row; rejection_reasons = none }) env s
    else (ok (record { claim = row; rejection_reasons = none }), s)

unfoldable pub amounts_of : ClaimRow → PayInFullClaim
amounts_of row =
    pay_in_full_claim_from_submitted_poa_claim row.claim_type_id row.poa_type_id
      row.total_profit_cost_net row.total_profit_cost_gross row.total_profit_cost_vat_zero

-- `create_payment_extract(lines=poa_claim_payment_extract_lines(...))`
unfoldable pub pay_lines : Ports → ClaimRow → Action (Unit {0})
unfolding amounts_of
pay_lines ports row =
    if ports.payment_extract
    then elim (poa_claim_payment_extract_lines row (amounts_of row)) [
      | ok lines ↦ create_payment_extract row.claim_id lines
      | err e ↦ λ env s. (err e, s)
    ]
    else pure tt

unfoldable pub approval : Ports → Application → ClaimRow → Action (Unit {0})
unfolding pay_lines
approval ports a row = do
  d ← create_claim_decision row.claim_id ClaimDecisionStatus.pay_in_full
  create_claim_decision_amount d.claim_decision_id (amounts_of row)
  pay_lines ports row
  update_claim_status row.claim_id ClaimStatus.pay_in_full
  create_history_event poa_auto_approved system_name system a.application_id
      (claim_reference_data row.claim_reference)
  commit

-- The condition of the automatic approval, apart from its ports.
abbrev pub approves : Claim → Application → List ExistingClaimSummary → Env → Bool
approves claim a existing env =
    not (is_rejected (should_auto_reject claim a existing env.now))
    && not (requires_manual_review claim a existing)
    && is_eligible_for_auto_approval claim a

unfoldable pub auto_approve :
    Ports
    → Claim
    → Application
    → List ExistingClaimSummary
    → CreateClaimResult
    → Action CreateClaimResult
unfolding approval
auto_approve ports claim a existing result env s =
    if approves claim a existing env
      && ports.decision
      && ports.decision_amount
      && ports.claim_status
    then decide (approval ports a result.claim)
        (record result { claim = in_status ClaimStatus.pay_in_full result.claim })
        (record result { claim = in_status ClaimStatus.submitted result.claim }) env s
    else (ok result, s)
