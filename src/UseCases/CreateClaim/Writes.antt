-- ===== src/UseCases/CreateClaim/Writes.antt =====
-- The transactions of `CreateClaimUseCase.execute` (app/use_cases/create_claim.py), each from its
-- first write to its commit.
use laa_inquests_api.Prelude.{
  ℕ, ◌≡◌, refl, ap, subst, ◌⊎◌, inl, inr, Option, none, some, List, [], ◌∷◌, ◌++◌, map, Result, ok,
  err, String,
}
use laa_inquests_api.Prelude.Int.{ℤ}
use laa_inquests_api.Text.{Text}
use laa_inquests_api.Enums.{ClaimStatus, ClaimDecisionStatus, ReasonCode, InquestOutcomeCode}
use laa_inquests_api.Exceptions.{Exception}
use laa_inquests_api.Application.{Application}
use laa_inquests_api.Claim.{Claim}
use laa_inquests_api.PaymentExtract.{PaymentExtractLine, poa_claim_payment_extract_lines}
use laa_inquests_api.Records.{ClaimRow, ClaimDecision}
use laa_inquests_api.Store.{Db, Session, Env}
use laa_inquests_api.Store.Tables.{with_status, add_claim, link_one}
use laa_inquests_api.Store.Actions.{pure, call, commit, reload, write}
use laa_inquests_api.Store.Repository.{
  update, new_claim_row, insert_claim, create_claim, generate_claim_reference_attempts,
  create_payment_extract, link_evidence_to_claim, link_inquest_outcomes_to_claim,
  link_cost_template_to_claim,
}
use laa_inquests_api.Store.Triples.{
  At, Stage, Runs, Runs-pure, Runs-bind, Runs-then, Runs-if, Runs-weaken, Runs-given, Runs-step,
  Runs-call, Runs-for_each, Runs-commit,
}
use laa_inquests_api.Store.Yields.{
  Yields, Yields-after, Yields-bind, Yields-given, Yields-pure, Yields-reload, Yields-or_rollback,
}
use laa_inquests_api.Store.Caught.{Committed}
use laa_inquests_api.Store.Writes.{
  Keeps, Keeps-pure, Keeps-send, Keeps-create_history_event, Keeps-create_decision_reason,
  Keeps-create_payment_extract, Keeps-create_claim_decision_amount, Runs-create_claim_decision,
  Runs-update_claim_status,
}
use laa_inquests_api.UseCases.CreateClaim.Phases.{
  Ports, CreateClaimCommand, submission, submit, confirmation, rejection, approval, pay_lines,
  amounts_of, link_evidence, link_cost_template,
}
use laa_inquests_api.UseCases.CreateClaim.Checks.{Keeps-get_claim_reference}
use laa_inquests_api.UseCases.CreateClaim.Rows.{Fresh}

-- Every new key is that of no claim yet.
abbrev pub GivesFreshIds : Env → Type 0
GivesFreshIds env = (db : Db) → Fresh (env.new_claim_id db) db.claims

-- The committed data is that of `d` with one claim more, `row`, which awaits its assessment.
abbrev pub Submitted : Db → ClaimRow → Session → Type 0
Submitted d row s =
    (Fresh row.claim_id d.claims × (row.status_id ≡ ClaimStatus.submitted))
    × Stage (d.claims ++ (row ∷ [])) d.decisions s

module _ (env : Env) (d : Db) where
  module _ (cs : List ClaimRow) (ds : List ClaimDecision) where
    Keeps-link_evidence :
        (claim : ℕ) (ids : Option (List ℕ)) → Keeps env d cs ds (link_evidence claim ids)
    unfolding link_evidence link_evidence_to_claim link_one
    Keeps-link_evidence claim none = Keeps-pure env d cs ds tt
    Keeps-link_evidence claim (some ids) =
        Runs-then env d
          (Runs-for_each env d cs ds (λ id. update (link_one claim id)) ids
            (λ id. Runs-call env d cs ds (write (link_one claim id)) (λ s h. h)))
          (Runs-call env d cs ds (write (λ db. db)) (λ s h. h))

    Keeps-link_inquest_outcomes_to_claim :
        (claim : ℕ) (os : List InquestOutcomeCode)
        → Keeps env d cs ds (link_inquest_outcomes_to_claim claim os)
    unfolding link_inquest_outcomes_to_claim
    Keeps-link_inquest_outcomes_to_claim claim os = Runs-call env d cs ds _ (λ s h. h)

    Keeps-link_cost_template :
        (claim : ℕ) (id : Option ℕ) (name : Option String)
        → Keeps env d cs ds (link_cost_template claim id name)
    unfolding link_cost_template link_cost_template_to_claim
    Keeps-link_cost_template claim none name = Keeps-pure env d cs ds tt
    Keeps-link_cost_template claim (some id) none = Keeps-pure env d cs ds tt
    Keeps-link_cost_template claim (some id) (some name) = Runs-call env d cs ds _ (λ s h. h)

    Keeps-pay_lines : (ports : Ports) (row : ClaimRow) → Keeps env d cs ds (pay_lines ports row)
    unfolding pay_lines
    Keeps-pay_lines ports row =
        Runs-if env d ports.payment_extract
          (lines (poa_claim_payment_extract_lines row (amounts_of row))) (Keeps-pure env d cs ds tt)
      where
        lines :
            (r : Result Exception (List PaymentExtractLine))
            → Keeps env d cs ds (elim r [
              | ok ls ↦ create_payment_extract row.claim_id ls
              | err e ↦ λ env s. (err e, s)
            ])
        lines (ok ls) = Keeps-create_payment_extract env d cs ds row.claim_id ls
        lines (err e) = Runs-step env d _ (λ s h. h.0)

    pub Runs-confirmation :
        (a : Application) (row : ClaimRow)
        → Runs env d (At env d cs ds) (confirmation a row) (λ _. Stage cs ds)
    unfolding confirmation
    Runs-confirmation a row = Runs-then env d (Keeps-create_history_event env d cs ds _ _ _ _ _) (
        Runs-then env d (Runs-call env d cs ds (λ s. s) (λ s h. h))
          (Runs-then env d (Keeps-send env d cs ds _) (Runs-commit env d cs ds)))

    -- The tables after a decision on the claim with the key `id`.
    abbrev pub AfterDecision : ℕ → ClaimStatus → ClaimDecisionStatus → Session → Type 0
    AfterDecision id status outcome s =
        (x : ClaimDecision) × (((x.claim_id ≡ id) × (x.decision ≡ outcome))
          × Stage (map (with_status id status) cs) (ds ++ (x ∷ [])) s)

    pub Runs-rejection :
        (a : Application) (row : ClaimRow) (codes : List ReasonCode)
        → Runs env d
            (At env d cs ds)
            (rejection a row codes)
            (λ _. AfterDecision row.claim_id ClaimStatus.rejected ClaimDecisionStatus.reject)
    unfolding rejection
    Runs-rejection a row codes =
        Runs-bind env d _ _ (Runs-create_claim_decision env d cs ds _ _) λ x.
          Runs-given env d _ λ made.
            Runs-then env d
              (Runs-for_each env d _ _ _ codes
                (λ code. Keeps-create_decision_reason env d _ _ _ _ _))
              (Runs-then env d (Runs-update_claim_status env d _ _ _ _) (
                Runs-then env d (Keeps-create_history_event env d _ _ _ _ _ _ _)
                  (Runs-weaken env d (λ _ s h. (x, (made, h))) (Runs-commit env d _ _))))

  pub Runs-approval :
      (cs : List ClaimRow) (ds : List ClaimDecision) (ports : Ports) (a : Application)
      (row : ClaimRow)
      → Runs env d (At env d cs ds) (approval ports a row) (λ _.
        AfterDecision cs ds row.claim_id ClaimStatus.pay_in_full ClaimDecisionStatus.pay_in_full)
  unfolding approval
  Runs-approval cs ds ports a row =
      Runs-bind env d _ _ (Runs-create_claim_decision env d cs ds _ _) λ x.
        Runs-given env d _ λ made.
          Runs-then env d (Keeps-create_claim_decision_amount env d _ _ _ _) (
            Runs-then env d (Keeps-pay_lines _ _ ports row) (
              Runs-then env d (Runs-update_claim_status env d _ _ _ _) (
                Runs-then env d (Keeps-create_history_event env d _ _ _ _ _ _ _)
                  (Runs-weaken env d (λ _ s h. (x, (made, h))) (Runs-commit env d _ _)))))

  abbrev Here : Session → Type 0
  Here = At env d d.claims d.decisions

  -- The open transaction sees the new claim.
  abbrev Inserted : ClaimRow → Session → Type 0
  Inserted row s =
      (Fresh row.claim_id d.claims × (row.status_id ≡ ClaimStatus.submitted))
      × At env d (d.claims ++ (row ∷ [])) d.decisions s

  Runs-create_claim :
      (application : ℕ) (claim : Claim) (claimant : Option Text) (funds : ℤ)
      → GivesFreshIds env
      → Runs env d Here (create_claim application claim claimant funds) Inserted
  unfolding create_claim insert_claim add_claim
  Runs-create_claim application claim claimant funds fresh =
      Runs-bind env d _ _
        (Keeps-get_claim_reference env d d.claims d.decisions generate_claim_reference_attempts)
        λ reference. Runs-step env d _ λ s h.
          let row : ClaimRow =
            new_claim_row env (env.new_claim_id s.working) reference application claim claimant
              funds in
          (Runs-bind env d (call (write (add_claim row))) (λ _. pure row)
              (Runs-call env d d.claims d.decisions (write (add_claim row))
                {Q = At env d (d.claims ++ (row ∷ [])) d.decisions}
                (λ s h. (h.0, ap (λ cs. cs ++ (row ∷ [])) h.1, h.2)))
              (λ _. Runs-pure env d row (λ _ k.
                ((subst (Fresh (env.new_claim_id s.working)) h.1 (fresh s.working), refl), k)))).at
            s h

  Runs-submission :
      (c : CreateClaimCommand) (a : Application) (claim : Claim) (funds : ℤ)
      → GivesFreshIds env
      → Runs env d Here (submission c a claim funds) Inserted
  unfolding submission
  Runs-submission c a claim funds fresh =
      Runs-bind env d _ _ (Runs-create_claim a.application_id claim c.claimant_id funds fresh)
        λ row. Runs-given env d _ λ new.
          Runs-then env d (Keeps-link_evidence _ _ row.claim_id c.claim_evidence_ids) (
            Runs-then env d
              (Keeps-link_inquest_outcomes_to_claim _ _ row.claim_id c.inquest_outcomes)
              (Runs-then env d (Keeps-link_cost_template _ _ _ _ _) (
                Runs-then env d (Keeps-create_history_event env d _ _ _ _ _ _ _)
                  (Runs-pure env d {Q = Inserted} row (λ s h. (new, h))))))

  -- What a submission that raises has committed: nothing, or the new claim, which awaits its
  -- assessment.
  abbrev pub NothingOrClaim : Session → Type 0
  NothingOrClaim s =
      (s.committed ≡ d)
      ⊎ ((row : ClaimRow) × (Fresh row.claim_id d.claims × (row.status_id ≡ ClaimStatus.submitted))
          × Committed (d.claims ++ (row ∷ [])) d.decisions s)

  pub Yields-submit :
      (c : CreateClaimCommand) (a : Application) (claim : Claim) (funds : ℤ)
      → GivesFreshIds env
      → Yields env Here (submit c a claim funds) (Submitted d) NothingOrClaim
  unfolding submit
  Yields-submit c a claim funds fresh =
      Yields-or_rollback env _ (λ s e. e)
        (Yields-after env d _ _ (Runs-submission c a claim funds fresh) (λ s h. inl h)
          λ row. Yields-given env _ λ new.
            Yields-after env d commit _ (Runs-commit env d _ _) (λ s h. inl h)
              λ _.
                Yields-bind env reload (λ _. pure row)
                  (Yields-reload env (λ s h. h) (λ s h. inr (row, new, (h.1, h.2))))
                  (λ _. Yields-pure env row (λ s h. (new, h))))
