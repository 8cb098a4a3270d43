-- ===== src/UseCases/RejectClaim/Outcome.antt =====
-- What `RejectClaimUseCase.execute` of app/use_cases/reject_claim.py commits.
use laa_inquests_api.Prelude.{
  ◌≡◌, refl, ap, sym, subst, if◌then◌else◌, ◌++◌, ◌∷◌, [], map, Result, ok, err, Bool, true, false,
}
use laa_inquests_api.Text.{Text}
use laa_inquests_api.Enums.{ClaimStatus, ClaimDecisionStatus}
use laa_inquests_api.Exceptions.{Exception}
use laa_inquests_api.Application.{Application}
use laa_inquests_api.Records.{ClaimRow, ClaimDecision}
use laa_inquests_api.Store.{Db, Session, Env}
use laa_inquests_api.Store.Tables.{with_status}
use laa_inquests_api.Store.Actions.{call, send, pure}
use laa_inquests_api.Store.Triples.{
  At, Outcome, Runs, Runs-pure, Runs-bind, Runs-then, Runs-weaken, Runs-exists, Runs-given,
  Runs-step, Runs-call, Runs-commit, Runs-or_rollback,
}
use laa_inquests_api.Store.Writes.{
  Runs-create_claim_decision, Runs-update_claim_status, Keeps-create_decision_reason,
  Keeps-create_history_event, Keeps-or_raise, Keeps-send,
}
use laa_inquests_api.UseCases.Assessment.{
  Assessable, Decided, Runs-claim_for_assessment, Runs-get_application_by_laa_reference,
}
use laa_inquests_api.UseCases.RejectClaim.{
  RejectClaimCommand, execute, record_rejection, assessment, notification, or_ignore, user_name,
}

-- The claim that the command names was rejected: `d` is the data before, `d'` after.
abbrev pub Rejected : Db → RejectClaimCommand → Db → Type 0
Rejected d c d' =
    (a : Application) × (claim : ClaimRow) × (Assessable d a c.claim_reference claim
      × Decided d claim ClaimStatus.rejected ClaimDecisionStatus.reject d')

module _ (env : Env) (d : Db) where
  abbrev Here : Session → Type 0
  Here = At env d d.claims d.decisions

  -- The data of the open transaction after the writes.
  abbrev Written : ClaimRow → Session → Type 0
  Written claim s =
      (x : ClaimDecision) × (((x.claim_id ≡ claim.claim_id)
          × (x.decision ≡ ClaimDecisionStatus.reject))
        × At env d (map (with_status claim.claim_id ClaimStatus.rejected) d.claims)
            (d.decisions ++ (x ∷ [])) s)

  Runs-record_rejection :
      (a : Application) (claim : ClaimRow) (justification : Text)
      → Runs env d Here (record_rejection a claim justification) (λ _. Written claim)
  unfolding record_rejection
  Runs-record_rejection a claim justification =
      Runs-bind env d _ _ (Runs-create_claim_decision env d d.claims d.decisions _ _) λ x.
        Runs-given env d _ λ made. Runs-then env d (Keeps-create_decision_reason env d _ _ _ _ _) (
          Runs-then env d (Runs-update_claim_status env d _ _ _ _) (
            Runs-bind env d _ _ (Runs-step env d user_name (λ s h. h)) λ user.
              Runs-then env d (Keeps-create_history_event env d _ _ _ _ _ _ _) (
                Runs-weaken env d (λ _ s h. (x, (made, h)))
                  (Keeps-create_history_event env d _ _ _ _ _ _ _))))

  Runs-assessment :
      (a : Application) (c : RejectClaimCommand)
      → Runs env d Here (assessment a c) (λ _ s. Rejected d c s.committed)
  unfolding assessment
  Runs-assessment a c =
      Runs-bind env d _ _ (Runs-claim_for_assessment env d a c.claim_reference) λ claim.
        Runs-given env d _ λ waits.
          Runs-then env d (Runs-record_rejection a claim c.justification) (
            Runs-exists env d _ λ x. Runs-given env d _ λ made.
              Runs-then env d (Runs-commit env d _ _)
                (Runs-pure env d claim (λ s h. (a, claim, (waits, (h.1, x, made, h.2))))))

  -- The email after the commit keeps what is committed, whether it is sent or not.
  Runs-notification :
      (e : Db) (claim : ClaimRow) (s : Session)
      → s.committed ≡ e
      → (or_ignore (notification claim) env s).1.committed ≡ e
  unfolding notification
  Runs-notification e claim s h = kept (notification claim env s) (
      (Runs-bind env e (call (λ (s : Session). s)) (λ _. send _)
          (Runs-call env e s.working.claims s.working.decisions (λ s. s) (λ s h. h))
          (λ _. Keeps-send env e s.working.claims s.working.decisions _)).at
        s (h, refl, refl))
    where
      kept :
          (r : Result Exception (Unit {0}) × Session)
          → Outcome env e {A = Unit {0}} (λ _. At env e s.working.claims s.working.decisions) r
          → r.1.committed ≡ e
      kept (ok _, s') q = q.0
      kept (err _, s') q = q

  after :
      (gov : Bool) (c : RejectClaimCommand) (claim : ClaimRow) (s : Session)
      → Rejected d c s.committed
      → Outcome env d {A = Unit {0}}
          (λ _ s. Rejected d c s.committed)
          ((if gov then or_ignore (notification claim) else pure tt) env s)
  unfolding pure
  after true c claim s h = subst (Rejected d c) (sym (Runs-notification s.committed claim s refl)) h
  after false c claim s h = h

  Runs-execute :
      (gov : Bool) (c : RejectClaimCommand)
      → Runs env d Here (execute gov c) (λ _ s. Rejected d c s.committed)
  unfolding execute
  Runs-execute gov c =
      Runs-bind env d _ _ (Runs-get_application_by_laa_reference env d c.laa_reference) λ found.
        Runs-bind env d _ _ (Keeps-or_raise env d _ _ found _) λ a.
          Runs-bind env d _ _ (Runs-or_rollback env d _ (Runs-assessment a c))
            λ claim. Runs-step env d _ (λ s h. after gov c claim s h)

-- From a session without open writes, `execute` either raises and has committed nothing, or has
-- committed the rejection of the claim that the command names, which awaited its assessment: its
-- status is `rejected`, one decision `reject` on it is added, and the other claims and decisions are
-- as they were. An email that is not sent undoes nothing.
pub execute_rejects :
    (env : Env) (gov_notify : Bool) (c : RejectClaimCommand) (s : Session)
    → s.working ≡ s.committed
    → Outcome env s.committed {A = Unit {0}}
        (λ _ s'. Rejected s.committed c s'.committed)
        (execute gov_notify c env s)
execute_rejects env gov_notify c s h =
    (Runs-execute env s.committed gov_notify c).at s
      (refl, ap (λ (d : Db). d.claims) h, ap (λ (d : Db). d.decisions) h)
