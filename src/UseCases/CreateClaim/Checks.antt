-- ===== src/UseCases/CreateClaim/Checks.antt =====
-- What the checks that `CreateClaimUseCase.execute` of app/use_cases/create_claim.py begins with do
-- to the claims and the decisions.
use laa_inquests_api.Prelude.{
  Bool, true, false, List, [], ◌∷◌, Result, ok, err, zero, suc, ℕ, any, if◌then◌else◌,
}
use laa_inquests_api.Text.{Text, occurs_in}
use laa_inquests_api.Exceptions.{Exception}
use laa_inquests_api.Messages.{ClaimValidationError}
use laa_inquests_api.Application.{Application}
use laa_inquests_api.Claim.{Claim}
use laa_inquests_api.Records.{ClaimRow, ClaimDecision}
use laa_inquests_api.Store.{Db, Session, Env}
use laa_inquests_api.Store.Tables.{reference_exists}
use laa_inquests_api.Store.Actions.{pure}
use laa_inquests_api.Store.Repository.{
  query, without_dashes, get_application_by_laa_reference, get_claims_by_application_id,
  get_claim_decision_by_claim_id, get_claim_reference, generate_claim_reference, reference_refused,
}
use laa_inquests_api.Store.Triples.{
  Outcome, At, Runs-bind, Runs-then, Runs-if, Runs-step, Runs-guard,
}
use laa_inquests_api.Store.Writes.{Keeps, Keeps-pure, Keeps-raise, Keeps-query, Keeps-or_raise}
use laa_inquests_api.UseCases.CreateClaim.{
  check, from_result, or_invalid, existing_claim_amounts, calculate_total_funds_remaining,
}
use laa_inquests_api.UseCases.CreateClaim.Phases.{Ports, CreateClaimCommand}

module _ (env : Env) (d : Db) (cs : List ClaimRow) (ds : List ClaimDecision) where
  module _ {A : Type 0} where
    Keeps-from_result : (r : Result Exception A) → Keeps env d cs ds (from_result r)
    Keeps-from_result (ok a) = Keeps-pure env d cs ds a
    Keeps-from_result (err e) = Keeps-raise env d cs ds e

    Keeps-or_invalid : (r : Result ClaimValidationError A) → Keeps env d cs ds (or_invalid r)
    Keeps-or_invalid (ok a) = Keeps-pure env d cs ds a
    Keeps-or_invalid (err e) = Keeps-raise env d cs ds _

  Keeps-existing_claim_amounts :
      (ports : Ports) (rows : List ClaimRow) → Keeps env d cs ds (existing_claim_amounts ports rows)
  unfolding existing_claim_amounts get_claim_decision_by_claim_id
  Keeps-existing_claim_amounts ports [] = Keeps-pure env d cs ds _
  Keeps-existing_claim_amounts ports (c ∷ rows) =
      Runs-bind env d _ _
        (Runs-if env d ports.get_claim_decision (Keeps-query env d cs ds _)
          (Keeps-pure env d cs ds _))
        (λ latest.
          Runs-bind env d _ _ (Keeps-existing_claim_amounts ports rows)
            (λ _. Keeps-pure env d cs ds _))

  Keeps-calculate_total_funds_remaining :
      (ports : Ports) (a : Application) (rows : List ClaimRow) (claim : Claim)
      → Keeps env d cs ds (calculate_total_funds_remaining ports a rows claim)
  unfolding calculate_total_funds_remaining
  Keeps-calculate_total_funds_remaining ports a rows claim =
      Runs-bind env d _ _ (Keeps-existing_claim_amounts ports rows) (λ _. Keeps-pure env d cs ds _)

  pub Keeps-check : (ports : Ports) (c : CreateClaimCommand) → Keeps env d cs ds (check ports c)
  unfolding check get_application_by_laa_reference get_claims_by_application_id
  Keeps-check ports c = Runs-then env d (Keeps-from_result _) (
      Runs-bind env d _ _ (Keeps-query env d cs ds _) λ found.
        Runs-bind env d _ _ (Keeps-or_raise env d cs ds found _) λ a.
          Runs-then env d (Runs-guard env d cs ds _ _) (
            Runs-then env d (Runs-guard env d cs ds _ _) (
              Runs-then env d (Runs-guard env d cs ds _ _) (
                Runs-then env d (Keeps-or_invalid _) (
                  Runs-bind env d _ _ (Keeps-or_invalid _) λ claim.
                    Runs-bind env d _ _ (Keeps-query env d cs ds _) λ rows.
                      Runs-then env d (Keeps-or_invalid _) (
                        Runs-bind env d _ _
                          (Keeps-calculate_total_funds_remaining ports a rows claim)
                          (λ funds. Keeps-pure env d cs ds _)))))))

  Keeps-reference_refused : (reference : Text) → Keeps env d cs ds (reference_refused reference)
  unfolding reference_refused
  Keeps-reference_refused reference =
      Runs-step env d (reference_refused reference)
        (λ s h. refused s h (any (λ w. occurs_in w (without_dashes reference)) env.banned_words))
    where
      refused :
          (s : Session)
          → At env d cs ds s
          → (banned : Bool)
          → Outcome env d {A = Bool}
              (λ _. At env d cs ds)
              (if banned then (ok true, s) else query (reference_exists reference) env s)
      refused s h true = h
      refused s h false = (Keeps-query env d cs ds (reference_exists reference)).at s h

  -- Drawing a reference, by the number of attempts that are left.
  pub Keeps-get_claim_reference : (attempts : ℕ) → Keeps env d cs ds (get_claim_reference attempts)
  unfolding get_claim_reference generate_claim_reference
  Keeps-get_claim_reference zero = Keeps-raise env d cs ds _
  Keeps-get_claim_reference (suc attempts) =
      Runs-bind env d _ _ (Runs-step env d generate_claim_reference (λ s h. h)) λ reference.
        Runs-bind env d _ _ (Keeps-reference_refused reference)
          λ refused. again reference refused (Keeps-get_claim_reference attempts)
    where
      again :
          (reference : Text) (refused : Bool)
          → Keeps env d cs ds (get_claim_reference attempts)
          → Keeps env d cs ds
              (elim refused [ true ↦ get_claim_reference attempts | false ↦ pure reference ])
      again reference true rest = rest
      again reference false rest = Keeps-pure env d cs ds reference
