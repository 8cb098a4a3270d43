-- ===== src/UseCases/PayInFullClaim/Outcome.antt =====
-- What `PayInFullClaimUseCase.execute` of app/use_cases/pay_in_full_claim.py commits.
use laa_inquests_api.Prelude.{ℕ, ◌≡◌, refl, ap, ◌++◌, ◌∷◌, [], List, map, Result, ok, err}
use laa_inquests_api.Calendar.{Date, Datetime}
use laa_inquests_api.Enums.{
  ClaimStatus, ClaimDecisionStatus, HistoryEventReference, system, is_payment_on_account,
}
use laa_inquests_api.Application.{Application}
use laa_inquests_api.Messages.{ClaimValidationError}
use laa_inquests_api.PayInFull.{PayInFullClaim, validate}
use laa_inquests_api.PaymentExtract.{poa_claim_payment_extract_lines}
use laa_inquests_api.Records.{ClaimRow, ClaimDecision, EventData}
use laa_inquests_api.Store.{Db, Session, Env, Email}
use laa_inquests_api.Store.Tables.{with_status}
use laa_inquests_api.Store.Actions.{send, pure, raise, ◌>>◌}
use laa_inquests_api.Store.Repository.{
  create_history_event, get_claims_by_application_id, get_payment_extracts_by_claim_id,
}
use laa_inquests_api.Store.Triples.{
  At, Outcome, Runs, Runs-bind, Runs-then, Runs-weaken, Runs-if, Runs-exists, Runs-given, Runs-step,
  Runs-call, Runs-commit, Runs-or_rollback,
}
use laa_inquests_api.Store.Writes.{
  Keeps, Keeps-pure, Keeps-result, Keeps-query, Runs-create_claim_decision,
  Runs-update_claim_status, Keeps-create_claim_decision_amount, Keeps-create_history_event,
  Keeps-create_payment_extract, Keeps-or_raise, Keeps-send,
}
use laa_inquests_api.UseCases.Assessment.{
  Assessable, Decided, Runs-claim_for_assessment, Runs-get_application_by_laa_reference,
}
use laa_inquests_api.UseCases.RejectClaim.{user_name}
use laa_inquests_api.UseCases.CreateClaim.Phases.{system_name}
use laa_inquests_api.UseCases.CreateClaim.{or_invalid}
use laa_inquests_api.UseCases.PayInFullClaim.Extract.{
  ExtractPorts, recoupable_poa_claims, recoup_each, payment_lines, create_extract,
}
use laa_inquests_api.UseCases.PayInFullClaim.{
  PayInFullClaimCommand, decision_amounts, execute, record_payment, assessment, send_decision_email,
}

module _ (env : Env) (d : Db) (cs : List ClaimRow) (ds : List ClaimDecision) where
  pub Keeps-recoupable_poa_claims :
      (ports : ExtractPorts) (application current : ℕ)
      → Keeps env d cs ds (recoupable_poa_claims ports application current)
  unfolding recoupable_poa_claims get_claims_by_application_id
  Keeps-recoupable_poa_claims ports application current =
      Runs-if env d ports.get_claims_for_application
        (Runs-bind env d _ _ (Keeps-query env d cs ds _) (λ _. Keeps-pure env d cs ds _))
        (Keeps-pure env d cs ds _)

  Keeps-recoup_each :
      (date : Date) (claims : List ClaimRow) (sequence : ℕ)
      → Keeps env d cs ds (recoup_each date sequence claims)
  unfolding recoup_each get_payment_extracts_by_claim_id
  Keeps-recoup_each date [] sequence = Keeps-pure env d cs ds _
  Keeps-recoup_each date (c ∷ claims) sequence =
      Runs-bind env d _ _ (Keeps-query env d cs ds _) λ extracts.
        Runs-bind env d _ _ (Keeps-recoup_each date claims _) (λ _. Keeps-pure env d cs ds _)

  Keeps-payment_lines :
      (ports : ExtractPorts) (a : Application) (claim : ClaimRow) (p : PayInFullClaim)
      (decided : Datetime)
      → Keeps env d cs ds (payment_lines ports a claim p decided)
  unfolding payment_lines
  Keeps-payment_lines ports a claim p decided =
      Runs-if env d (is_payment_on_account claim.claim_type_id)
        (Keeps-result env d cs ds (poa_claim_payment_extract_lines claim p))
        (Runs-bind env d _ _ (Keeps-recoupable_poa_claims ports a.application_id claim.claim_id)
          λ poa.
            Runs-bind env d _ _ (Keeps-recoup_each decided.date poa _)
              (λ _. Keeps-pure env d cs ds _))

  Keeps-create_extract :
      (ports : ExtractPorts) (a : Application) (claim : ClaimRow) (p : PayInFullClaim)
      (decided : Datetime)
      → Keeps env d cs ds (create_extract ports a claim p decided)
  unfolding create_extract
  Keeps-create_extract ports a claim p decided =
      Runs-if env d ports.create_payment_extract_port
        (Runs-bind env d _ _ (Keeps-payment_lines ports a claim p decided)
          (λ lines. Keeps-create_payment_extract env d cs ds _ lines))
        (Keeps-pure env d cs ds tt)

  Keeps-send_decision_email :
      (a : Application) (claim : ClaimRow) → Keeps env d cs ds (send_decision_email a claim)
  unfolding send_decision_email
  Keeps-send_decision_email a claim =
      Runs-if env d (is_payment_on_account claim.claim_type_id) (mail _ _ _) (mail _ _ _)
    where
      mail :
          (t : Email) (r : HistoryEventReference) (e : EventData)
          → Keeps env d cs ds
              (send t >> create_history_event r system_name system a.application_id e)
      mail t r e =
          Runs-then env d (Keeps-send env d cs ds _)
            (Keeps-create_history_event env d cs ds _ _ _ _ _)

-- The claim that the command names was paid in full: `d` is the data before, `d'` after.
abbrev pub PaidInFull : Db → PayInFullClaimCommand → Db → Type 0
PaidInFull d c d' =
    (a : Application) × (claim : ClaimRow) × (Assessable d a c.claim_reference claim
      × (validate (decision_amounts claim c) ≡ ok tt)
      × Decided d claim ClaimStatus.pay_in_full ClaimDecisionStatus.pay_in_full d')

module _ (env : Env) (d : Db) where
  abbrev Here : Session → Type 0
  Here = At env d d.claims d.decisions

  -- The data of the open transaction after the writes.
  abbrev Written : ClaimRow → Session → Type 0
  Written claim s =
      (x : ClaimDecision) × (((x.claim_id ≡ claim.claim_id)
          × (x.decision ≡ ClaimDecisionStatus.pay_in_full))
        × At env d (map (with_status claim.claim_id ClaimStatus.pay_in_full) d.claims)
            (d.decisions ++ (x ∷ [])) s)

  Runs-or_invalid :
      (r : Result ClaimValidationError (Unit {0}))
      → Runs env d Here (or_invalid r) (λ _ s. (r ≡ ok tt) × Here s)
  unfolding pure raise
  Runs-or_invalid (ok tt) = Runs-step env d _ (λ s h. (refl, h))
  Runs-or_invalid (err e) = Runs-step env d _ (λ s h. h.0)

  Runs-record_payment :
      (ports : ExtractPorts) (a : Application) (claim : ClaimRow) (p : PayInFullClaim)
      → Runs env d Here (record_payment ports a claim p) (λ _. Written claim)
  unfolding record_payment
  Runs-record_payment ports a claim p =
      Runs-bind env d _ _ (Runs-create_claim_decision env d d.claims d.decisions _ _) λ x.
        Runs-given env d _ λ made.
          Runs-then env d (Keeps-create_claim_decision_amount env d _ _ _ _) (
            Runs-then env d (Runs-update_claim_status env d _ _ _ _) (
              Runs-then env d (Keeps-create_extract env d _ _ ports a claim p _) (
                Runs-bind env d _ _ (Runs-step env d user_name (λ s h. h)) λ user.
                  Runs-then env d (Keeps-create_history_event env d _ _ _ _ _ _ _) (
                    Runs-then env d (Runs-call env d _ _ (λ s. s) (λ s h. h)) (
                      Runs-weaken env d (λ _ s h. (x, (made, h)))
                        (Keeps-send_decision_email env d _ _ a claim))))))

  Runs-assessment :
      (ports : ExtractPorts) (a : Application) (c : PayInFullClaimCommand)
      → Runs env d Here (assessment ports a c) (λ _ s. PaidInFull d c s.committed)
  unfolding assessment
  Runs-assessment ports a c =
      Runs-bind env d _ _ (Runs-claim_for_assessment env d a c.claim_reference) λ claim.
        Runs-given env d _ λ waits.
          Runs-bind env d _ _ (Runs-or_invalid (validate (decision_amounts claim c))) λ _.
            Runs-given env d _ λ valid.
              Runs-then env d (Runs-record_payment ports a claim (decision_amounts claim c)) (
                Runs-exists env d _ λ x. Runs-given env d _ λ made.
                  Runs-weaken env d (λ _ s h. (a, claim, (waits, valid, (h.1, x, made, h.2))))
                    (Runs-commit env d _ _))

  Runs-execute :
      (ports : ExtractPorts) (c : PayInFullClaimCommand)
      → Runs env d Here (execute ports c) (λ _ s. PaidInFull d c s.committed)
  unfolding execute
  Runs-execute ports c =
      Runs-bind env d _ _ (Runs-get_application_by_laa_reference env d c.laa_reference) λ found.
        Runs-bind env d _ _ (Keeps-or_raise env d _ _ found _)
          λ a. Runs-or_rollback env d _ (Runs-assessment ports a c)

-- From a session without open writes, `execute` either raises and has committed nothing, or has
-- committed the payment of the claim that the command names, which awaited its assessment: the
-- amounts decided on pass `validate`, the claim's status is `pay_in_full`, one decision
-- `pay_in_full` on it is added, and the other claims and decisions are as they were.
pub execute_pays_in_full :
    (env : Env) (ports : ExtractPorts) (c : PayInFullClaimCommand) (s : Session)
    → s.working ≡ s.committed
    → Outcome env s.committed {A = Unit {0}}
        (λ _ s'. PaidInFull s.committed c s'.committed)
        (execute ports c env s)
execute_pays_in_full env ports c s h =
    (Runs-execute env s.committed ports c).at s
      (refl, ap (λ (d : Db). d.claims) h, ap (λ (d : Db). d.decisions) h)
