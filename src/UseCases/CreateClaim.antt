-- ===== src/UseCases/CreateClaim.antt =====
-- `CreateClaimUseCase` of app/use_cases/create_claim.py.
pub mod Phases
pub mod Checks
pub mod Rows
pub mod Writes
pub mod Created
pub mod Outcome
use laa_inquests_api.Prelude.{
  ℕ, Bool, true, false, not, ◌&&◌, ◌||◌, Option, none, some, List, [], ◌∷◌, any, is_empty, is_some,
  value_or, map, String, Result, ok, err, raise_if, Check, if◌then◌else◌,
}
use laa_inquests_api.Prelude.Int.{ℤ, ◌-ℤ◌}
use laa_inquests_api.Text.{Text, eq_text}
use laa_inquests_api.Enums.{
  ClaimType, PoaType, InquestOutcomeCode, NumberOfCounselInstructed, is_nil_bill, is_granted,
}
use laa_inquests_api.Messages.{
  ClaimValidationError, error, claim_evidence_not_allowed, claim_evidence_not_allowed_message,
  missing_claim_evidence, claim_evidence_is_required, application_not_granted,
  application_not_granted_message,
}
use laa_inquests_api.Exceptions.{
  Exception, application_not_found, provider_office_mismatch, invalid_claim,
}
use laa_inquests_api.Money.{ApprovedClaimAmount, calculate_available_funds, payment_amount}
use laa_inquests_api.Application.{Application, overall_decision, substantive_cost_limitation}
use laa_inquests_api.Claim.{Claim, post_init}
use laa_inquests_api.Claim.Totals.{validate_total_claim_cost}
use laa_inquests_api.Claim.Review.{ExistingClaimSummary, validate_no_active_final_bill}
use laa_inquests_api.Records.{ClaimRow, ClaimDecision}
use laa_inquests_api.Store.{Session}
use laa_inquests_api.Store.Actions.{Action, pure, raise, guard, or_raise, ◌>>=◌, ◌>>◌}
use laa_inquests_api.Store.Repository.{
  get_application_by_laa_reference, get_claims_by_application_id, get_claim_decision_by_claim_id,
}
use Phases.{
  Ports, CreateClaimCommand, CreateClaimResult, submit, notify, reload_application, auto_reject,
  auto_approve,
}

-- The checks of the claim evidence that `execute` begins with.
unfoldable pub check_evidence : CreateClaimCommand → Check Exception
check_evidence c =
    if is_nil_bill c.claim_type
    then raise_if (is_some c.claim_evidence_ids)
        (invalid_claim (error claim_evidence_not_allowed claim_evidence_not_allowed_message))
    else raise_if (is_empty (value_or c.claim_evidence_ids []))
        (invalid_claim (error missing_claim_evidence claim_evidence_is_required))

-- The `DomainClaim` that `execute` constructs from the command.
unfoldable pub domain_claim : CreateClaimCommand → Claim
domain_claim c = record {
  claim_type = c.claim_type;
  poa_type = c.poa_type;
  net = c.net;
  gross = c.gross;
  vat_zero_total = c.vat_zero_total;
  inquest_outcomes = c.inquest_outcomes;
  cost_template_file_id = c.cost_template_file_id;
  cost_template_file_name = c.cost_template_file_name;
  has_counsel_been_paid = c.has_counsel_been_paid;
  has_alternative_funding = c.has_alternative_funding;
  has_recovery_costs_awarded = c.has_recovery_costs_awarded;
  financial_recovery_previous_pre_certificate_costs =
      c.financial_recovery_previous_pre_certificate_costs;
  financial_recovery_cost = c.financial_recovery_cost;
  financial_recovery_damages = c.financial_recovery_damages;
  financial_recovery_interest = c.financial_recovery_interest;
  paying_party = c.paying_party;
  number_of_counsel_instructed = c.number_of_counsel_instructed;
}

-- `try: m except ClaimValidationError as e: raise InvalidClaimError(...)`
abbrev pub or_invalid : {A : Type 0} → Result ClaimValidationError A → Action A
or_invalid (ok a) = pure a
or_invalid (err e) = raise (invalid_claim e)

abbrev pub from_result : {A : Type 0} → Result Exception A → Action A
from_result (ok a) = pure a
from_result (err e) = raise e

unfoldable pub summary_of : ClaimRow → ExistingClaimSummary
summary_of c = record {
  claim_type = c.claim_type_id;
  status = c.status_id;
  poa_type = c.poa_type_id;
  submission_date = c.submission_date;
  net = c.total_profit_cost_net;
  gross = c.total_profit_cost_gross;
  vat_zero_total = c.total_profit_cost_vat_zero;
}

-- `_latest_decision`, and the amounts of the existing claims that it goes with
unfoldable pub existing_claim_amounts : Ports → List ClaimRow → Action (List ApprovedClaimAmount)
existing_claim_amounts ports [] = pure []
existing_claim_amounts ports (c ∷ cs) = do
  latest ←
      (if ports.get_claim_decision then get_claim_decision_by_claim_id c.claim_id else pure none)
  rest ← existing_claim_amounts ports cs
  pure (
      record {
        decision = elim latest [ none ↦ none | some d ↦ some d.decision ];
        gross = c.total_profit_cost_gross;
        vat_zero_total = c.total_profit_cost_vat_zero;
      }
      ∷ rest)

-- `_calculate_total_funds_remaining`; an amount in pence needs no rounding to two places
unfoldable pub calculate_total_funds_remaining :
    Ports → Application → List ClaimRow → Claim → Action ℤ
unfolding existing_claim_amounts
calculate_total_funds_remaining ports a existing claim = do
  amounts ← existing_claim_amounts ports existing
  pure (
      calculate_available_funds (substantive_cost_limitation a.proceeding) amounts
      -ℤ payment_amount
          (record { decision = none; gross = claim.gross; vat_zero_total = claim.vat_zero_total }))

-- What `execute` finds out before it writes.
pub record Checked : Type 0 where
  pub application : Application
  pub claim : Claim
  pub existing : List ExistingClaimSummary
  pub funds : ℤ

-- `execute`, up to the first write
unfoldable pub check : Ports → CreateClaimCommand → Action Checked
unfolding check_evidence domain_claim calculate_total_funds_remaining
check ports c = do
  from_result (check_evidence c)
  found ← get_application_by_laa_reference c.laa_reference
  a ← or_raise found (application_not_found c.laa_reference)
  guard (not (eq_text a.provider.firm_code c.firm_code)) (application_not_found c.laa_reference)
  guard (not (any (eq_text a.provider.office_id) c.office_codes))
      (provider_office_mismatch c.laa_reference)
  guard (not (is_granted (overall_decision a)))
      (invalid_claim (error application_not_granted application_not_granted_message))
  or_invalid (post_init (domain_claim c))
  claim ← or_invalid (validate_total_claim_cost (domain_claim c))
  rows ← get_claims_by_application_id a.application_id
  or_invalid (validate_no_active_final_bill (map summary_of rows))
  funds ← calculate_total_funds_remaining ports a rows claim
  pure (record { application = a; claim = claim; existing = map summary_of rows; funds = funds })

unfoldable pub execute : Ports → CreateClaimCommand → Action CreateClaimResult
execute ports c = do
  checked ← check ports c
  row ← submit c checked.application checked.claim checked.funds
  notify ports checked.application row
  reload_application checked.claim
  rejected ← auto_reject ports checked.claim checked.application checked.existing row
  auto_approve ports checked.claim checked.application checked.existing rejected
