-- ===== src/UseCases/History/Submission.antt =====
-- The events that the submission of a claim writes: app/use_cases/create_claim.py.
use laa_inquests_api.Prelude.{
  ℕ, zero, suc, Bool, true, false, Option, none, some, List, [], ◌∷◌, String, Result, ok, err, any,
  refl, map, ◌&&◌, if◌then◌else◌,
}
use laa_inquests_api.Prelude.Int.{ℤ}
use laa_inquests_api.Text.{Text, occurs_in}
use laa_inquests_api.Enums.{ReasonCode, ClaimRejectionReason, InquestOutcomeCode}
use laa_inquests_api.Exceptions.{Exception}
use laa_inquests_api.Application.{Application}
use laa_inquests_api.Claim.{Claim}
use laa_inquests_api.Claim.Review.{ExistingClaimSummary, should_auto_reject, is_rejected}
use laa_inquests_api.PaymentExtract.{PaymentExtractLine, poa_claim_payment_extract_lines}
use laa_inquests_api.Records.{ClaimRow}
use laa_inquests_api.Store.{Db, Session, Env}
use laa_inquests_api.Store.Tables.{add_claim, link_one, reference_exists}
use laa_inquests_api.Store.Actions.{Action, pure, reload, roll_back}
use laa_inquests_api.Store.Repository.{
  get_application_by_laa_reference, get_claims_by_application_id, get_claim_decision_by_claim_id,
  update, query, get_claim_reference, generate_claim_reference, reference_refused, insert_claim,
  create_claim, without_dashes, link_evidence_to_claim, link_inquest_outcomes_to_claim,
  link_cost_template_to_claim, generate_claim_reference_attempts, create_payment_extract,
}
use laa_inquests_api.Store.History.{
  Records, Sound, SoundAfter, Records-pure, Records-raise, Records-bind, Records-for_each,
  Records-update, Records-query, Records-or_else, Records-reload, Records-roll_back, Records-if,
  claimed, claim_confirmed, auto_approved, auto_rejected,
}
use laa_inquests_api.UseCases.History.{Records-create_payment_extract, claim_rules}
use laa_inquests_api.UseCases.History.Claims.{Records-or_invalid}
use laa_inquests_api.UseCases.CreateClaim.{
  check, from_result, existing_claim_amounts, calculate_total_funds_remaining, execute,
}
use laa_inquests_api.UseCases.CreateClaim.Phases.{
  Ports, CreateClaimCommand, CreateClaimResult, link_evidence, link_cost_template, submission,
  submit, confirmation, or_forget, notify, rejection, auto_reject, amounts_of, pay_lines, approval,
  approves, auto_approve, reviews_application, reload_application, reason_code_of, decide,
}

decided :
    (test : Bool) (m : Action (Unit {0}))
    → Records m
    → (x y z : CreateClaimResult) (env : Env) (s : Session) → Sound s
    → SoundAfter (if test then decide m x y env s else (ok z, s))
decided true m hm x y z env s h =
    (Records-or_else m hm x _ (
        Records-bind roll_back _ Records-roll_back
          (λ _. Records-bind reload _ Records-reload (λ _. Records-pure y)))).at
      env s h
decided false m hm x y z env s h = h

Records-from_result : {A : Type 0} (r : Result Exception A) → Records (from_result r)
Records-from_result (ok a) = Records-pure a
Records-from_result (err e) = Records-raise e

Records-or_forget : (m : Action (Unit {0})) → Records m → Records (or_forget m)
Records-or_forget m h =
    Records-or_else m h tt _ (Records-bind reload _ Records-reload (λ _. Records-roll_back))

Records-generate : Records generate_claim_reference
unfolding generate_claim_reference
Records-generate = record {
  at = λ env s h. record { committed = h.committed; working = h.working };
}

Records-refused : (reference : Text) → Records (reference_refused reference)
unfolding reference_refused
Records-refused reference = record {
  at = λ env s h. go env s h (any (λ w. occurs_in w (without_dashes reference)) env.banned_words);
}
  where
    go :
        (env : Env) (s : Session)
        → Sound s
        → (test : Bool)
        → SoundAfter {A = Bool}
            (if test then (ok true, s) else query (reference_exists reference) env s)
    go env s h true = h
    go env s h false = (Records-query (reference_exists reference)).at env s h

Records-get_claim_reference : (attempts : ℕ) → Records (get_claim_reference attempts)
unfolding get_claim_reference
Records-get_claim_reference zero = Records-raise _
Records-get_claim_reference (suc attempts) = Records-bind _ _ Records-generate λ reference.
    Records-bind (reference_refused reference) _ (Records-refused reference)
      λ refused. again refused reference (Records-get_claim_reference attempts)
  where
    again :
        (refused : Bool) (reference : Text) {m : Action Text}
        → Records m
        → Records (elim refused [ true ↦ m | false ↦ pure reference ])
    again true reference h = h
    again false reference h = Records-pure reference

Records-insert_claim : (row : Db → Env → ClaimRow) → Records (insert_claim row)
unfolding insert_claim add_claim
Records-insert_claim row = record {
  at = λ env s.
      (Records-bind (update (add_claim (row s.working env))) _
          (Records-update (add_claim (row s.working env)) (λ db. refl)) (λ _. Records-pure _)).at
        env s;
}

Records-create_claim :
    (application : ℕ) (c : Claim) (claimant : Option Text) (funds : ℤ)
    → Records (create_claim application c claimant funds)
unfolding create_claim
Records-create_claim application c claimant funds =
    Records-bind _ _ (Records-get_claim_reference generate_claim_reference_attempts)
      (λ reference. Records-insert_claim _)

Records-link_evidence : (claim : ℕ) (ids : Option (List ℕ)) → Records (link_evidence claim ids)
unfolding link_evidence link_evidence_to_claim link_one
Records-link_evidence claim none = Records-pure tt
Records-link_evidence claim (some ids) =
    Records-bind _ _ (Records-for_each _ ids (λ id. Records-update _ (λ db. refl)))
      (λ _. Records-update (λ db. db) (λ db. refl))

Records-link_outcomes :
    (claim : ℕ) (os : List InquestOutcomeCode) → Records (link_inquest_outcomes_to_claim claim os)
unfolding link_inquest_outcomes_to_claim
Records-link_outcomes claim os = Records-update _ (λ db. refl)

Records-link_cost_template :
    (claim : ℕ) (id : Option ℕ) (name : Option String) → Records (link_cost_template claim id name)
unfolding link_cost_template link_cost_template_to_claim
Records-link_cost_template claim none name = Records-pure tt
Records-link_cost_template claim (some id) none = Records-pure tt
Records-link_cost_template claim (some id) (some name) = Records-update _ (λ db. refl)

Records-submit :
    (c : CreateClaimCommand) (a : Application) (claim : Claim) (funds : ℤ)
    → Records (submit c a claim funds)
unfolding submit submission
Records-submit c a claim funds =
    search
      (
        claim_rules, Records-create_claim, Records-link_evidence, Records-link_outcomes,
        Records-link_cost_template, claimed,
      )
      depth 25

Records-notify : (ports : Ports) (a : Application) (row : ClaimRow) → Records (notify ports a row)
unfolding notify confirmation
Records-notify ports a row = search (claim_rules, Records-or_forget, claim_confirmed) depth 15

Records-reload_application : (c : Claim) → Records (reload_application c)
unfolding reload_application
Records-reload_application c = Records-if (reviews_application c) Records-reload (Records-pure tt)

Records-rejection :
    (a : Application) (row : ClaimRow) (codes : List ReasonCode) → Records (rejection a row codes)
unfolding rejection
Records-rejection a row codes = search (claim_rules, auto_rejected) depth 20

Records-auto_reject :
    (ports : Ports) (c : Claim) (a : Application) (existing : List ExistingClaimSummary)
    (row : ClaimRow)
    → Records (auto_reject ports c a existing row)
unfolding auto_reject
Records-auto_reject ports c a existing row = record {
  at = λ env s h.
      let reasons : List ClaimRejectionReason = should_auto_reject c a existing env.now in
      let codes : List ReasonCode = map reason_code_of reasons in
      decided (is_rejected reasons && ports.decision && ports.decision_reason && ports.claim_status)
        (rejection a row codes) (Records-rejection a row codes) _ _ _ env s h;
}

Records-pay_lines : (ports : Ports) (row : ClaimRow) → Records (pay_lines ports row)
unfolding pay_lines
Records-pay_lines ports row =
    Records-if ports.payment_extract (lines (poa_claim_payment_extract_lines row (amounts_of row)))
      (Records-pure tt)
  where
    lines :
        (r : Result Exception (List PaymentExtractLine))
        → Records (elim r [
          | ok lines ↦ create_payment_extract row.claim_id lines
          | err e ↦ λ env s. (err e, s)
        ])
    lines (ok ls) = Records-create_payment_extract row.claim_id ls
    lines (err e) = record { at = λ env s h. h }

Records-approval :
    (ports : Ports) (a : Application) (row : ClaimRow) → Records (approval ports a row)
unfolding approval
Records-approval ports a row = search (claim_rules, Records-pay_lines, auto_approved) depth 20

Records-auto_approve :
    (ports : Ports) (c : Claim) (a : Application) (existing : List ExistingClaimSummary)
    (result : CreateClaimResult)
    → Records (auto_approve ports c a existing result)
unfolding auto_approve
Records-auto_approve ports c a existing result = record {
  at = λ env s h.
      decided
        (approves c a existing env && ports.decision && ports.decision_amount && ports.claim_status)
        (approval ports a result.claim) (Records-approval ports a result.claim) _ _ _ env s h;
}

Records-existing : (ports : Ports) (cs : List ClaimRow) → Records (existing_claim_amounts ports cs)
unfolding existing_claim_amounts get_claim_decision_by_claim_id
Records-existing ports [] = Records-pure []
Records-existing ports (c ∷ cs) =
    Records-bind _ _ (Records-if ports.get_claim_decision (Records-query _) (Records-pure none))
      (λ latest. Records-bind _ _ (Records-existing ports cs) (λ rest. Records-pure _))

Records-check : (ports : Ports) (c : CreateClaimCommand) → Records (check ports c)
unfolding check calculate_total_funds_remaining get_application_by_laa_reference
    get_claims_by_application_id
Records-check ports c =
    search (claim_rules, Records-or_invalid, Records-from_result, Records-existing) depth 25

pub create_claim-Records : (ports : Ports) (c : CreateClaimCommand) → Records (execute ports c)
unfolding execute
create_claim-Records ports c =
    search
      (
        claim_rules, Records-check, Records-submit, Records-notify, Records-reload_application,
        Records-auto_reject, Records-auto_approve,
      )
      depth 14
