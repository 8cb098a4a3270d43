-- ===== src/UseCases/RejectClaim/Success.antt =====
-- When `RejectClaimUseCase.execute` of app/use_cases/reject_claim.py succeeds.
use laa_inquests_api.Prelude.{
  ℕ, Bool, true, false, not, ◌==◌, ◌≡◌, refl, ap, sym, subst, ◌∙◌, some, List, [], ◌∷◌, any, select,
  Result, ok, err, is_ok, if◌then◌else◌, arith,
}
use laa_inquests_api.Text.{Text, is_blank}
use laa_inquests_api.Enums.{is_submitted}
use laa_inquests_api.Exceptions.{Exception}
use laa_inquests_api.Application.{Application}
use laa_inquests_api.Records.{ClaimRow}
use laa_inquests_api.Store.{Db, Session, Env}
use laa_inquests_api.Store.Tables.{first, application_by_laa_reference, claim_by_reference}
use laa_inquests_api.Store.Actions.{pure, commit, ◌>>◌}
use laa_inquests_api.Store.Repository.{
  no_actor, get_application_by_laa_reference, get_claim_by_reference,
}
use laa_inquests_api.Store.Goes.{
  IsCalm, Ends, Goes, Goes-bind, Goes-then, Goes-step, Goes-pure, Goes-given, Goes-or_rollback,
  Goes-guard, Goes-call, Goes-create_history_event, Goes-found, Goes-query, Sees,
  Goes-create_claim_decision, Goes-create_decision_reason, Goes-update_claim_status,
}
use laa_inquests_api.UseCases.Assessment.{Assessable}
use laa_inquests_api.UseCases.RejectClaim.{
  RejectClaimCommand, execute, claim_for_assessment, record_rejection, assessment, notification,
  or_ignore, user_name,
}

-- The claim that a search finds is there.
first-any :
    (p : ClaimRow → Bool) (cs : List ClaimRow) (c : ClaimRow)
    → first (select p cs) ≡ some c
    → any (λ (c' : ClaimRow). c'.claim_id == c.claim_id) cs ≡ true
first-any p [] c h = absurd (ground arith)
first-any p (x ∷ cs) c h = ground (arith, first-any p cs c)

module _ (env : Env) (calm : IsCalm env) (w : Db) (a : Application) (claim : ClaimRow) where
  Goes-claim_for_assessment :
      (reference : Text)
      → Assessable w a reference claim
      → Goes env calm
          (λ s. s.working ≡ w)
          (claim_for_assessment a reference)
          (λ c s. (claim ≡ c) × Sees env calm w.claims s)
  unfolding claim_for_assessment get_claim_by_reference
  Goes-claim_for_assessment reference h =
      Goes-bind env calm _ _ (Goes-query env calm (claim_by_reference reference) w) λ found.
        Goes-given env calm _ λ e. Goes-found env calm found claim _ _ (sym e ∙ h.0) (
          Goes-then env calm
            (Goes-guard env calm (not (claim.application_id == a.application_id)) _
              (same claim.application_id a.application_id h.1))
            (Goes-then env calm
              (Goes-guard env calm (not (is_submitted claim.status_id)) _
                (ap (λ t. not (is_submitted t)) h.2))
              (Goes-pure env calm claim (λ s k. (refl, ap (λ (d : Db). d.claims) k)))))
    where
      same : (m n : ℕ) → m ≡ n → not (m == n) ≡ false
      same m n e = ground arith

  Goes-record_rejection :
      (justification : Text)
      → no_actor env.user_name ≡ false
      → any (λ (c : ClaimRow). c.claim_id == claim.claim_id) w.claims ≡ true
      → Goes env calm
          (Sees env calm w.claims)
          (record_rejection a claim justification)
          (λ _ _. Unit)
  unfolding record_rejection is_blank
  Goes-record_rejection justification named there =
      Goes-bind env calm _ _ (Goes-create_claim_decision env calm w.claims _ _) λ x.
        Goes-then env calm (Goes-create_decision_reason env calm w.claims _ _ _) (
          Goes-then env calm (Goes-update_claim_status env calm w.claims _ _ there) (
            Goes-bind env calm user_name _
              (Goes-step env calm {Q = λ user _. no_actor user ≡ false} user_name (λ s _. named))
              λ user. Goes-step env calm _ λ s e.
                (Goes-then env calm (Goes-create_history_event env calm _ user _ _ _ e)
                    (Goes-create_history_event env calm _ _ _ _ _ refl)).at
                  s tt))

  Goes-assessment :
      (c : RejectClaimCommand)
      → Assessable w a c.claim_reference claim
      → no_actor env.user_name ≡ false
      → Goes env calm (λ s. s.working ≡ w) (assessment a c) (λ _ _. Unit)
  unfolding assessment claim_by_reference commit
  Goes-assessment c h named =
      Goes-bind env calm _ _ (Goes-claim_for_assessment c.claim_reference h) λ found.
        Goes-given env calm _ λ e.
          subst
            (λ (r : ClaimRow).
              Goes env calm (Sees env calm w.claims)
                (record_rejection a r c.justification >> (commit >> pure r)) (λ _ _. Unit))
            e
            (Goes-then env calm
              (Goes-record_rejection c.justification named (first-any _ w.claims claim h.0))
              (Goes-then env calm {Q = λ _. Unit} committing (Goes-pure env calm claim (λ s k. k))))
    where
      committing : Goes env calm (λ _. Unit) commit (λ _ _. Unit)
      committing =
          Goes-call env calm (λ (s : Session). record s { committed = s.working }) (λ s k. k)

  Goes-execute :
      (gov : Bool) (c : RejectClaimCommand)
      → application_by_laa_reference c.laa_reference w ≡ some a
      → Assessable w a c.claim_reference claim
      → no_actor env.user_name ≡ false
      → Goes env calm (λ s. s.working ≡ w) (execute gov c) (λ _ _. Unit)
  unfolding execute get_application_by_laa_reference pure
  Goes-execute gov c found h named =
      Goes-bind env calm _ _ (Goes-query env calm (application_by_laa_reference c.laa_reference) w)
        λ o. Goes-given env calm _ λ e. Goes-found env calm o a _ _ (sym e ∙ found) (
          Goes-bind env calm _ _ (Goes-or_rollback env calm _ (Goes-assessment c h named))
            (λ r. Goes-step env calm _ (λ s _. email gov r s)))
    where
      email :
          (gov : Bool) (r : ClaimRow) (s : Session)
          → Ends {A = Unit {0}}
              (λ _ _. Unit)
              ((if gov then or_ignore (notification r) else pure tt) env s)
      email true r s = tt
      email false r s = tt

-- Where no call of outside code fails and the user has a name, a claim of the application that
-- awaits its assessment can be rejected: `execute` returns.
pub execute_succeeds :
    (env : Env) (gov_notify : Bool) (c : RejectClaimCommand) (s : Session) (a : Application)
    (claim : ClaimRow)
    → IsCalm env
    → no_actor env.user_name ≡ false
    → application_by_laa_reference c.laa_reference s.working ≡ some a
    → Assessable s.working a c.claim_reference claim
    → is_ok (execute gov_notify c env s).0 ≡ true
execute_succeeds env gov_notify c s a claim calm named found h =
    ended (execute gov_notify c env s)
      ((Goes-execute env calm s.working a claim gov_notify c found h named).at s refl)
  where
    ended : (r : Result Exception (Unit {0}) × Session) → Ends (λ _ _. Unit) r → is_ok r.0 ≡ true
    ended (ok _, s) k = refl
    ended (err e, s) k = absurd k
