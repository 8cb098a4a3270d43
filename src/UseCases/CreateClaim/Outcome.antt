-- ===== src/UseCases/CreateClaim/Outcome.antt =====
-- What `CreateClaimUseCase.execute` of app/use_cases/create_claim.py commits.
use laa_inquests_api.Prelude.{
  Bool, Bool-cases, true, false, ◌&&◌, ◌≡◌, refl, ap, ◌⊎◌, inl, inr, List, [], ◌∷◌, ◌++◌, map, none,
  some, ok, if◌then◌else◌,
}
use laa_inquests_api.Enums.{ClaimStatus, ClaimDecisionStatus, ReasonCode}
use laa_inquests_api.Application.{Application}
use laa_inquests_api.Claim.{Claim}
use laa_inquests_api.Claim.Review.{ExistingClaimSummary, should_auto_reject, is_rejected}
use laa_inquests_api.Records.{ClaimRow}
use laa_inquests_api.Store.{Db, Session, Env}
use laa_inquests_api.Store.Actions.{Action, pure, reload, roll_back, ◌>>◌}
use laa_inquests_api.Store.Triples.{At, Stage, Runs, Runs-weaken}
use laa_inquests_api.Store.Caught.{Committed, Yields-or_else, Yields-roll_back}
use laa_inquests_api.Store.Yields.{
  Ending, Yields, Yields-after, Yields-bind, Yields-given, Yields-weaken, Yields-pure, Yields-if,
  Yields-reload,
}
use laa_inquests_api.UseCases.CreateClaim.{execute}
use laa_inquests_api.UseCases.CreateClaim.Phases.{
  Ports, CreateClaimCommand, CreateClaimResult, notify, auto_reject, auto_approve, confirmation,
  rejection, approval, in_status, approves, reason_code_of, decide, reviews_application,
  reload_application,
}
use laa_inquests_api.UseCases.CreateClaim.Checks.{Keeps-check}
use laa_inquests_api.UseCases.CreateClaim.Rows.{Fresh}
use laa_inquests_api.UseCases.CreateClaim.Writes.{
  GivesFreshIds, Submitted, NothingOrClaim, Yields-submit, Runs-confirmation, Runs-rejection,
  Runs-approval,
}
use laa_inquests_api.UseCases.CreateClaim.Created.{
  Created, Submitted-Created, undone-Created, decided-Created,
}

module _ (env : Env) (d : Db) where
  -- A submitted claim is what a raised exception after the submission leaves.
  Submitted-left :
      (row : ClaimRow)
      → Fresh row.claim_id d.claims × (row.status_id ≡ ClaimStatus.submitted)
      → (s : Session) → Committed (d.claims ++ (row ∷ [])) d.decisions s
      → NothingOrClaim env d s
  Submitted-left row new s h = inr (row, new, h)

  -- The read after a rollback of what came after the submission.
  Yields-undone :
      {A : Type 0} (row : ClaimRow) (a : A) {R : A → Session → Type 0}
      → Fresh row.claim_id d.claims × (row.status_id ≡ ClaimStatus.submitted)
      → ((s : Session) → Stage (d.claims ++ (row ∷ [])) d.decisions s → R a s)
      → Yields env
          (Committed (d.claims ++ (row ∷ [])) d.decisions)
          (roll_back >> (reload >> pure a))
          R
          (NothingOrClaim env d)
  Yields-undone row a new h = Yields-bind env roll_back _ (Yields-roll_back env _ _) λ _.
      Yields-bind env reload _
        (Yields-reload env (λ s h. h) (λ s h. Submitted-left row new s (h.1, h.2)))
        (λ _. Yields-pure env a h)

  Yields-notify :
      (ports : Ports) (a : Application) (row : ClaimRow)
      → Yields env
          (Submitted d row)
          (notify ports a row)
          (λ _. Submitted d row)
          (NothingOrClaim env d)
  unfolding notify
  Yields-notify ports a row = Yields-given env _ λ new.
      Yields-if env (ports.gov_notify && ports.provider_details)
        (Yields-or_else env _ _ (confirmation a row) tt (reload >> roll_back)
          (λ e. Runs-weaken env e (λ _ s h. (new, h)) (Runs-confirmation env e _ _ a row))
          (Yields-bind env reload _ (Yields-reload env (λ s h. h) (Submitted-left row new))
            λ _. Yields-weaken env (λ _ s h. (new, h)) (λ s e. e) (Yields-roll_back env _ _)))
        (Yields-pure env tt (λ s h. (new, h)))

  Yields-reload_application :
      (claim : Claim) (row : ClaimRow)
      → Yields env
          (Submitted d row)
          (reload_application claim)
          (λ _. Submitted d row)
          (NothingOrClaim env d)
  unfolding reload_application
  Yields-reload_application claim row =
      Yields-if env (reviews_application claim)
        (Yields-reload env {P = Submitted d row} (λ s h. h)
          (λ s h. Submitted-left row h.0 s (h.1.1, h.1.2)))
        (Yields-pure env tt (λ s h. h))

  module _ (ports : Ports) (claim : Claim) (a : Application)
      (existing : List ExistingClaimSummary) where
    abbrev auto_rejected : Bool
    auto_rejected = is_rejected (should_auto_reject claim a existing env.now)

    -- After the automatic rejection: only a claim that the review rejects can have been decided.
    abbrev Reviewed : CreateClaimResult → Session → Type 0
    Reviewed r s = ((auto_rejected ≡ true) × Created d r.claim s) ⊎ Submitted d r.claim s

    -- A decision on a submitted claim, with its handler.
    Yields-decide :
        (m : Action (Unit {0})) (row : ClaimRow) (success failure : CreateClaimResult)
        {R : CreateClaimResult → Session → Type 0}
        → Fresh row.claim_id d.claims × (row.status_id ≡ ClaimStatus.submitted)
        → ((e : Db) → Runs env e (At env e (d.claims ++ (row ∷ [])) d.decisions) m (λ _. R success))
        → ((s : Session) → Stage (d.claims ++ (row ∷ [])) d.decisions s → R failure s)
        → Yields env
            (Stage (d.claims ++ (row ∷ [])) d.decisions)
            (decide m success failure)
            R
            (NothingOrClaim env d)
    Yields-decide m row success failure new done undone =
        Yields-or_else env _ _ m success _ done (Yields-undone row failure new undone)

    reject_or_leave :
        (row : ClaimRow) (codes : List ReasonCode) (test : Bool)
        → auto_rejected ≡ true
        → Yields env
            (Submitted d row)
            (λ env s.
              if test
              then decide
                  (rejection a row codes)
                  (record {
                    claim = in_status ClaimStatus.rejected row;
                    rejection_reasons = some codes;
                  })
                  (record { claim = in_status ClaimStatus.submitted row; rejection_reasons = none })
                  env
                  s
              else (ok (record { claim = row; rejection_reasons = none }), s))
            Reviewed
            (NothingOrClaim env d)
    reject_or_leave row codes true e = Yields-given env _ λ new.
        Yields-decide (rejection a row codes) row _ _ new
          (λ e'.
            Runs-weaken env e'
              (λ _ s h. inl (
                e,
                decided-Created env d row ClaimStatus.rejected ClaimDecisionStatus.reject s new.0
                    (λ x h. h) h,
              ))
              (Runs-rejection env e' _ _ a row codes))
          (λ s h. inl (e, undone-Created d row s (new, h)))
    reject_or_leave row codes false e = record { at = λ s h. inr h }

    Yields-auto_reject :
        (row : ClaimRow)
        → Yields env
            (Submitted d row)
            (auto_reject ports claim a existing row)
            Reviewed
            (NothingOrClaim env d)
    unfolding auto_reject
    Yields-auto_reject row = record {
      at = λ s h. elim (Bool-cases auto_rejected) [
        | inl e ↦
            (reject_or_leave row (map reason_code_of (should_auto_reject claim a existing env.now))
                (auto_rejected && ports.decision && ports.decision_reason && ports.claim_status)
                e).at
              s h
        | inr e ↦ rw (e) (inr h)
      ];
    }

    approve_or_leave :
        (r : CreateClaimResult) (test : Bool)
        → Yields env
            (Submitted d r.claim)
            (λ env s.
              if test
              then decide
                  (approval ports a r.claim)
                  (record r { claim = in_status ClaimStatus.pay_in_full r.claim })
                  (record r { claim = in_status ClaimStatus.submitted r.claim })
                  env
                  s
              else (ok r, s))
            (λ r'. Created d r'.claim)
            (NothingOrClaim env d)
    approve_or_leave r true = Yields-given env _ λ new.
        Yields-decide (approval ports a r.claim) r.claim _ _ new
          (λ e'.
            Runs-weaken env e'
              (λ _ s h.
                decided-Created env d r.claim ClaimStatus.pay_in_full
                  ClaimDecisionStatus.pay_in_full s new.0 (λ x h. h) h)
              (Runs-approval env e' _ _ ports a r.claim))
          (λ s h. undone-Created d r.claim s (new, h))
    approve_or_leave r false = record { at = λ s h. Submitted-Created d r.claim s h }

    Yields-auto_approve :
        (r : CreateClaimResult)
        → Yields env
            (Reviewed r)
            (auto_approve ports claim a existing r)
            (λ r'. Created d r'.claim)
            (NothingOrClaim env d)
    unfolding auto_approve
    Yields-auto_approve r = record {
      at = λ s h. elim h [
        | inl (e, c) ↦ rw (e) c
        | inr k ↦
            (approve_or_leave r (
                approves claim a existing env
                && ports.decision
                && ports.decision_amount
                && ports.claim_status)).at
              s k
      ];
    }

  Yields-execute :
      (ports : Ports) (c : CreateClaimCommand)
      → GivesFreshIds env
      → Yields env
          (At env d d.claims d.decisions)
          (execute ports c)
          (λ r. Created d r.claim)
          (NothingOrClaim env d)
  unfolding execute
  Yields-execute ports c fresh =
      Yields-after env d _ _ (Keeps-check env d d.claims d.decisions ports c) (λ s h. inl h)
        λ k. Yields-bind env _ _ (Yields-submit env d c k.application k.claim k.funds fresh) λ row.
          Yields-bind env _ _ (Yields-notify ports k.application row) λ _.
            Yields-bind env _ _ (Yields-reload_application k.claim row) λ _.
              Yields-bind env _ _ (Yields-auto_reject ports k.claim k.application k.existing row)
                (λ r. Yields-auto_approve ports k.claim k.application k.existing r)

-- From a session without open writes, and where the database gives new claims keys of no other
-- claim, an `execute` that returns gives the claim as it stands at the end of the committed claims,
-- the others as they were: its status is `submitted` and there is no new decision, or it is
-- `rejected` or `pay_in_full` and the one new decision is that of the claim. One that raises has
-- left the committed data as it was, or has committed the new claim, submitted and without a
-- decision, and no other change of the claims and the decisions. This holds whichever calls and
-- transactions fail.
pub execute_creates :
    (env : Env) (ports : Ports) (c : CreateClaimCommand) (s : Session)
    → GivesFreshIds env
    → s.working ≡ s.committed
    → Ending env
        (λ r s'. Created s.committed r.claim s')
        (NothingOrClaim env s.committed)
        (execute ports c env s)
execute_creates env ports c s fresh h =
    (Yields-execute env s.committed ports c fresh).at s
      (refl, ap (λ (d : Db). d.claims) h, ap (λ (d : Db). d.decisions) h)
