-- ===== src/Tests/Flows.antt =====
-- The use cases run on concrete tables, and the theorems on what they commit.
use laa_inquests_api.Prelude.{
  is_ok, ◌≡◌, refl, true, none, some, List, [], ◌∷◌, map, Result, ok, err,
}
use laa_inquests_api.Enums.{ClaimStatus, final_bill}
use laa_inquests_api.Exceptions.{Exception}
use laa_inquests_api.Records.{ClaimRow}
use laa_inquests_api.Store.{Session}
use laa_inquests_api.Text.{upper, strip, is_blank}
use laa_inquests_api.Store.Actions.{
  ◌>>=◌, pure, raise, gets, guard, or_raise, call, send, commit, or_rollback,
}
use laa_inquests_api.Store.Tables.{
  application_by_laa_reference, claim_by_reference, add_decision, set_status,
}
use laa_inquests_api.Store.Repository.{
  get_application_by_laa_reference, get_claim_by_reference, create_claim_decision,
  create_decision_reason, update_claim_status, create_history_event,
}
use laa_inquests_api.Store.Triples.{Outcome}
use laa_inquests_api.Store.Yields.{Ending}
use laa_inquests_api.UseCases.CreateClaim.Writes.{NothingOrClaim}
use laa_inquests_api.UseCases.RejectClaim.{
  RejectClaimCommand, claim_for_assessment, record_rejection,
}
use laa_inquests_api.UseCases.RejectClaim.Outcome.{Rejected, execute_rejects}
use laa_inquests_api.UseCases.RejectClaim.Success.{execute_succeeds}
use laa_inquests_api.UseCases.PayInFullClaim.{PayInFullClaimCommand}
use laa_inquests_api.Prelude.Int.{pos}
use laa_inquests_api.PayInFull.{PayInFullClaim}
use laa_inquests_api.PaymentExtract.Lines.{NumberedFrom}
use laa_inquests_api.UseCases.PayInFullClaim.Extract.{
  ExtractPorts, payment_lines, final_or_nil_bill_payment_extract_lines,
}
use laa_inquests_api.UseCases.PayInFullClaim.Numbering.{
  final_or_nil_bill_payment_extract_lines-NumberedFrom, payment_lines-NumberedFrom,
}
use laa_inquests_api.UseCases.PayInFullClaim.Outcome.{PaidInFull, execute_pays_in_full}
use laa_inquests_api.UseCases.CreateClaim.Phases.{Ports, CreateClaimCommand}
use laa_inquests_api.UseCases.CreateClaim.Outcome.{execute_creates}
use laa_inquests_api.UseCases.CreateClaim.Created.{Created}
use laa_inquests_api.Tests.Data.{
  june_first, case, submitted_row, claim_reference, calm, calm-GivesFreshIds, start,
  profit_cost_claim,
}

abbrev pub rejecting : RejectClaimCommand
rejecting = record {
  laa_reference = b'I' ∷ b'1' ∷ [];
  claim_reference = claim_reference;
  justification = b'n' ∷ b'o' ∷ [];
}

abbrev ports : ExtractPorts
ports = record { get_claims_for_application = true; create_payment_extract_port = true }

abbrev paying : PayInFullClaimCommand
paying = record {
  laa_reference = b'I' ∷ b'1' ∷ [];
  claim_reference = claim_reference;
  profit_cost_net = none;
  profit_cost_gross = none;
  profit_cost_vat_zero = none;
  disbursement_net = none;
  disbursement_gross = none;
  disbursement_vat_zero = none;
}

-- The statuses of the committed claims.
abbrev statuses : {A : Type 0} → Result Exception A × Session → List ClaimStatus
statuses (ok _, s) = map (λ (c : ClaimRow). c.status_id) s.committed.claims
statuses (err _, s) = []

execute_rejects_example :
    Outcome calm start.committed {A = Unit {0}}
      (λ _ s'. Rejected start.committed rejecting s'.committed)
      (laa_inquests_api.UseCases.RejectClaim.execute true rejecting calm start)
execute_rejects_example = execute_rejects calm true rejecting start refl

execute_pays_in_full_example :
    Outcome calm start.committed {A = Unit {0}}
      (λ _ s'. PaidInFull start.committed paying s'.committed)
      (laa_inquests_api.UseCases.PayInFullClaim.execute ports paying calm start)
execute_pays_in_full_example = execute_pays_in_full calm ports paying start refl

-- The rejection succeeds on these tables.
rejecting_run :
    statuses (laa_inquests_api.UseCases.RejectClaim.execute true rejecting calm start)
    ≡ ClaimStatus.rejected ∷ []
unfolding laa_inquests_api.UseCases.RejectClaim.execute claim_for_assessment record_rejection ◌>>=◌
    pure raise gets guard or_raise call send commit or_rollback get_application_by_laa_reference
    application_by_laa_reference upper strip get_claim_by_reference claim_by_reference
    create_claim_decision create_decision_reason update_claim_status create_history_event
    add_decision set_status is_blank
rejecting_run = refl

-- The submission of the profit cost claim, with one file of evidence.
abbrev submitting : CreateClaimCommand
submitting = record {
  laa_reference = b'I' ∷ b'1' ∷ [];
  firm_code = b'F' ∷ [];
  office_codes = (b'O' ∷ []) ∷ [];
  claim_type = profit_cost_claim.claim_type;
  poa_type = profit_cost_claim.poa_type;
  net = profit_cost_claim.net;
  gross = profit_cost_claim.gross;
  vat_zero_total = profit_cost_claim.vat_zero_total;
  claimant_id = some (b'c' ∷ []);
  claim_evidence_ids = some (3 ∷ []);
  inquest_outcomes = [];
  cost_template_file_id = none;
  cost_template_file_name = none;
  has_counsel_been_paid = none;
  has_alternative_funding = none;
  has_recovery_costs_awarded = none;
  financial_recovery_previous_pre_certificate_costs = none;
  financial_recovery_cost = none;
  financial_recovery_damages = none;
  financial_recovery_interest = none;
  paying_party = none;
  number_of_counsel_instructed = none;
}

abbrev all_ports : Ports
all_ports = record {
  gov_notify = true;
  decision = true;
  decision_amount = true;
  decision_reason = true;
  claim_status = true;
  get_claim_decision = true;
  payment_extract = true;
  provider_details = true;
}

execute_creates_example :
    Ending calm
      (λ r s'. Created start.committed r.claim s')
      (NothingOrClaim calm start.committed)
      (laa_inquests_api.UseCases.CreateClaim.execute all_ports submitting calm start)
execute_creates_example = execute_creates calm all_ports submitting start calm-GivesFreshIds refl

execute_succeeds_example :
    is_ok (laa_inquests_api.UseCases.RejectClaim.execute true rejecting calm start).0 ≡ true
unfolding is_blank application_by_laa_reference claim_by_reference upper strip
execute_succeeds_example =
    execute_succeeds calm true rejecting start case submitted_row (λ _. refl) refl refl
      (refl, refl, refl)

-- A final bill with fees at 20% VAT and disbursements at both rates.
abbrev bill_row : ClaimRow
bill_row = record submitted_row { claim_id = 4; claim_type_id = final_bill; poa_type_id = none }

abbrev bill_amounts : PayInFullClaim
bill_amounts = record {
  claim_type_id = final_bill;
  poa_type_id = none;
  profit_cost_net = some (pos 100000);
  profit_cost_gross = some (pos 120000);
  profit_cost_vat_zero = none;
  disbursement_net = some (pos 5000);
  disbursement_gross = some (pos 7000);
  disbursement_vat_zero = some (pos 1000);
}

final_bill_numbering_example :
    NumberedFrom 1 (final_or_nil_bill_payment_extract_lines bill_row bill_amounts)
final_bill_numbering_example =
    final_or_nil_bill_payment_extract_lines-NumberedFrom bill_row bill_amounts

payment_lines_numbering_example :
    Outcome calm start.committed
      (λ ls _. NumberedFrom 1 ls)
      (payment_lines ports case bill_row bill_amounts june_first calm start)
payment_lines_numbering_example =
    payment_lines-NumberedFrom calm ports case bill_row bill_amounts june_first start refl
