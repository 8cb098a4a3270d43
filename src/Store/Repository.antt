-- ===== src/Store/Repository.antt =====
-- The methods of `ClaimRepositoryAdapter` (app/adapters/claim_repository_adapter.py) and
-- `HistoryEventRepositoryAdapter` (app/adapters/history_event_repository_adapter.py) that the claim
-- use cases call.
use laa_inquests_api.Prelude.{
  ℕ, zero, suc, Bool, true, false, not, Option, none, some, List, [], ◌∷◌, ◌++◌, any, select,
  String, ok, ◌==◌, if◌then◌else◌,
}
use laa_inquests_api.Prelude.Int.{ℤ}
use laa_inquests_api.Text.{Text, is_blank, occurs_in}
use laa_inquests_api.Enums.{
  ClaimStatus, ClaimDecisionStatus, ReasonCode, InquestOutcomeCode, ActorType,
  HistoryEventReference,
}
use laa_inquests_api.Exceptions.{unexpected, runtime_error, value_error}
use laa_inquests_api.Application.{Application}
use laa_inquests_api.Claim.{Claim}
use laa_inquests_api.PayInFull.{PayInFullClaim}
use laa_inquests_api.PaymentExtract.{PaymentExtractLine}
use laa_inquests_api.Records.{
  ClaimRow, ClaimDecision, ClaimPaymentExtract, ClaimInquestOutcome, EventData,
}
use laa_inquests_api.Store.{Db, Session, Env}
use laa_inquests_api.Store.Tables.{
  application_by_laa_reference, claims_by_application_id, claim_by_reference,
  payment_extracts_by_claim_id, decision_by_claim_id, reference_exists, set_status, link_one,
  add_claim, add_decision,
}
use laa_inquests_api.Store.Actions.{
  Action, pure, raise, gets, guard, call, write, for_each, ◌>>=◌, ◌>>◌,
}

-- A statement that only reads.
abbrev pub query : {A : Type 0} → (Db → A) → Action A
query f = call (λ (s : Session). s) >> gets f

abbrev pub update : (Db → Db) → Action (Unit {0})
update f = call (write f)

unfoldable pub get_application_by_laa_reference : Text → Action (Option Application)
get_application_by_laa_reference reference = query (application_by_laa_reference reference)

unfoldable pub get_claims_by_application_id : ℕ → Action (List ClaimRow)
get_claims_by_application_id id = query (claims_by_application_id id)

unfoldable pub get_claim_by_reference : Text → Action (Option ClaimRow)
get_claim_by_reference reference = query (claim_by_reference reference)

unfoldable pub get_payment_extracts_by_claim_id : ℕ → Action (List ClaimPaymentExtract)
get_payment_extracts_by_claim_id id = query (payment_extracts_by_claim_id id)

unfoldable pub get_claim_decision_by_claim_id : ℕ → Action (Option ClaimDecision)
get_claim_decision_by_claim_id id = query (decision_by_claim_id id)

-- `claim_reference.replace("-", "")`
abbrev pub without_dashes : Text → Text
without_dashes = select (λ (c : ℕ). not (c == b'-'))

-- `_generate_claim_reference`: 'INQC-XXXX-XXXX', of two draws of four allowed characters
unfoldable pub generate_claim_reference : Action Text
generate_claim_reference env s = (
  ok (
      (b'I' ∷ b'N' ∷ b'Q' ∷ b'C' ∷ b'-' ∷ [])
      ++ (env.random_chars s.draws ++ (b'-' ∷ env.random_chars (suc s.draws)))),
  record s { draws = suc (suc s.draws) },
)

-- `contains_banned_word(...) or` the existence of a claim with the reference
unfoldable pub reference_refused : Text → Action Bool
reference_refused reference env s =
    if any (λ w. occurs_in w (without_dashes reference)) env.banned_words
    then (ok true, s)
    else query (reference_exists reference) env s

-- `_get_claim_reference`, on the number of attempts that are left
unfoldable pub get_claim_reference : ℕ → Action Text
unfolding generate_claim_reference reference_refused
get_claim_reference zero = raise runtime_error
get_claim_reference (suc attempts) = do
  reference ← generate_claim_reference
  refused ← reference_refused reference
  elim refused [ true ↦ get_claim_reference attempts | false ↦ pure reference ]

-- `GENERATE_CLAIM_REFERENCE_ATTEMPTS`
abbrev pub generate_claim_reference_attempts : ℕ
generate_claim_reference_attempts = 10

-- The row that `create_claim` adds, with the column defaults of `ClaimBase`.
abbrev pub new_claim_row : Env → ℕ → Text → ℕ → Claim → Option Text → ℤ → ClaimRow
new_claim_row env id reference application claim claimant funds = record {
  claim_id = id;
  application_id = application;
  claim_reference = reference;
  claim_type_id = claim.claim_type;
  status_id = ClaimStatus.submitted;
  submission_date = env.now;
  total_profit_cost_net = claim.net;
  total_profit_cost_gross = claim.gross;
  total_profit_cost_vat_zero = claim.vat_zero_total;
  total_funds_remaining_after_claim = funds;
  claimant_id = claimant;
  poa_type_id = claim.poa_type;
  has_counsel_been_paid = claim.has_counsel_been_paid;
  has_alternative_funding = claim.has_alternative_funding;
  has_recovery_costs_awarded = claim.has_recovery_costs_awarded;
  financial_recovery_previous_pre_certificate_costs =
      claim.financial_recovery_previous_pre_certificate_costs;
  financial_recovery_cost = claim.financial_recovery_cost;
  financial_recovery_damages = claim.financial_recovery_damages;
  financial_recovery_interest = claim.financial_recovery_interest;
  paying_party = claim.paying_party;
  number_of_counsel_instructed = claim.number_of_counsel_instructed;
}

-- `session.add(row)`, `flush` and `refresh`, for a row of the table of claims
unfoldable pub insert_claim : (Db → Env → ClaimRow) → Action ClaimRow
insert_claim row env s =
    let c : ClaimRow = row s.working env in (update (add_claim c) >> pure c) env s

unfoldable pub create_claim : ℕ → Claim → Option Text → ℤ → Action ClaimRow
unfolding insert_claim
create_claim application claim claimant funds = do
  reference ← get_claim_reference generate_claim_reference_attempts
  insert_claim
      (λ db env. new_claim_row env (env.new_claim_id db) reference application claim claimant funds)

unfoldable pub link_evidence_to_claim : ℕ → List ℕ → Action (Unit {0})
link_evidence_to_claim claim evidence_ids =
    for_each (λ id. update (link_one claim id)) evidence_ids >> update (λ db. db)

-- The rows of `link_inquest_outcomes_to_claim`.
abbrev outcome_rows : ℕ → List InquestOutcomeCode → List ClaimInquestOutcome
outcome_rows claim [] = []
outcome_rows claim (o ∷ os) =
    record { claim_id = claim; inquest_outcome_id = o } ∷ outcome_rows claim os

unfoldable pub link_inquest_outcomes_to_claim : ℕ → List InquestOutcomeCode → Action (Unit {0})
link_inquest_outcomes_to_claim claim os =
    update (λ db. record db { outcomes = db.outcomes ++ outcome_rows claim os })

unfoldable pub link_cost_template_to_claim : ℕ → ℕ → String → Action (Unit {0})
link_cost_template_to_claim claim file_id file_name = update λ db. record db {
  templates =
      db.templates
      ++ (record {
        claim_id = claim;
        claim_cost_template_file_id = file_id;
        claim_cost_template_file_name = file_name;
      }
          ∷ []);
}

unfoldable pub create_claim_decision : ℕ → ClaimDecisionStatus → Action ClaimDecision
create_claim_decision claim status env s =
    let d : ClaimDecision = record {
      claim_decision_id = env.new_decision_id s.working;
      claim_id = claim;
      decision = status;
      created_at = env.now;
    } in
    (update (add_decision d) >> pure d) env s

unfoldable pub create_claim_decision_amount : ℕ → PayInFullClaim → Action (Unit {0})
create_claim_decision_amount decision d = update λ db. record db {
  amounts = db.amounts ++ (record { claim_decision_id = decision; amounts = d } ∷ []);
}

unfoldable pub create_decision_reason : ℕ → ReasonCode → Option Text → Action (Unit {0})
create_decision_reason decision code why = update λ db. record db {
  reasons =
      db.reasons
      ++ (record { claim_decision_id = decision; reason_code = code; justification = why } ∷ []);
}

extract_row : ℕ → PaymentExtractLine → ClaimPaymentExtract
extract_row claim l = record {
  claim_id = claim;
  sequence_number = l.sequence_number;
  invoice_number = l.invoice_number;
  invoice_amount = l.invoice_amount;
  invoice_date = l.invoice_date;
  invoice_type = l.invoice_type;
  tax_code = l.tax_code;
}

unfoldable pub create_payment_extract : ℕ → List PaymentExtractLine → Action (Unit {0})
unfolding extract_row
create_payment_extract claim lines =
    for_each
      (λ l. update (λ db. record db { extracts = db.extracts ++ (extract_row claim l ∷ []) })) lines

-- `update_claim_status`; a claim that is not there is an `AttributeError`
unfoldable pub update_claim_status : ℕ → ClaimStatus → Action (Unit {0})
update_claim_status claim status = do
  found ← query (λ (db : Db). any (λ (c : ClaimRow). c.claim_id == claim) db.claims)
  guard (not found) unexpected
  update (set_status claim status)

abbrev pub is_system : ActorType → Bool
is_system ActorType.system = true
is_system _ = false

-- `actor is None or actor.strip() == ""`
abbrev pub no_actor : Option Text → Bool
no_actor none = true
no_actor (some actor) = is_blank actor

abbrev pub actor_name : Option Text → Text
actor_name none = []
actor_name (some actor) = actor

unfoldable pub create_history_event :
    HistoryEventReference → Option Text → ActorType → ℕ → EventData → Action (Unit {0})
create_history_event reference actor type application payload env s =
    (guard (no_actor actor) value_error
        >> update λ db. record db {
          history =
              db.history
              ++ (record {
                event_reference = reference;
                timestamp = env.now;
                actor = actor_name actor;
                actor_type = type;
                entra_user_object_id = if is_system type then none else env.user_object_id;
                actor_email_address = if is_system type then none else env.user_email_address;
                application_id = application;
                event_data = payload;
              }
                  ∷ []);
        })
      env s
