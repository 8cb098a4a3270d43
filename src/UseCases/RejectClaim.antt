-- ===== src/UseCases/RejectClaim.antt =====
-- `RejectClaimUseCase` of app/use_cases/reject_claim.py.
pub mod Outcome
pub mod Success
use laa_inquests_api.Prelude.{Bool, not, Option, none, some, ok, err, ◌==◌, if◌then◌else◌}
use laa_inquests_api.Text.{Text}
use laa_inquests_api.Enums.{
  ClaimStatus, ClaimDecisionStatus, manual_rejection, claim_assessment_completed,
  claim_rejected_email, caseworker, system, is_submitted,
}
use laa_inquests_api.Exceptions.{application_not_found, claim_not_found, claim_assessment_conflict}
use laa_inquests_api.Application.{Application}
use laa_inquests_api.Records.{ClaimRow, rejection_data, email_data}
use laa_inquests_api.Store.{Session, Env, rejected_decision}
use laa_inquests_api.Store.Actions.{
  Action, pure, call, send, guard, or_raise, commit, or_rollback, ◌>>=◌, ◌>>◌,
}
use laa_inquests_api.Store.Repository.{
  get_application_by_laa_reference, get_claim_by_reference, create_claim_decision,
  create_decision_reason, update_claim_status, create_history_event,
}
use laa_inquests_api.UseCases.CreateClaim.Phases.{system_name}

pub record RejectClaimCommand : Type 0 where
  pub laa_reference : Text
  pub claim_reference : Text
  pub justification : Text

-- `get_entra_user_name()`
abbrev pub user_name : Action (Option Text)
user_name env s = (ok env.user_name, s)

-- The claim that is to be assessed: it exists, is of the application, and awaits its assessment.
-- `PayInFullClaimUseCase.execute` begins its `try` block alike.
unfoldable pub claim_for_assessment : Application → Text → Action ClaimRow
claim_for_assessment a reference = do
  found ← get_claim_by_reference reference
  claim ← or_raise found (claim_not_found reference)
  guard (not (claim.application_id == a.application_id)) (claim_not_found reference)
  guard (not (is_submitted claim.status_id)) claim_assessment_conflict
  pure claim

-- The writes of the `try` block after the checks, without the commit.
unfoldable pub record_rejection : Application → ClaimRow → Text → Action (Unit {0})
record_rejection a claim justification = do
  d ← create_claim_decision claim.claim_id ClaimDecisionStatus.reject
  create_decision_reason d.claim_decision_id manual_rejection (some justification)
  update_claim_status claim.claim_id ClaimStatus.rejected
  user ← user_name
  create_history_event claim_assessment_completed user caseworker a.application_id
      (rejection_data claim.claim_type_id claim.claim_reference justification)
  create_history_event claim_rejected_email system_name system a.application_id
      (email_data a.provider.email_address)

-- The `try` block.
unfoldable pub assessment : Application → RejectClaimCommand → Action ClaimRow
assessment a c = do
  claim ← claim_for_assessment a c.claim_reference
  record_rejection a claim c.justification
  commit
  pure claim

-- `try: m except Exception: log`
abbrev pub or_ignore : Action (Unit {0}) → Action (Unit {0})
or_ignore m env s = let (r, s') = m env s in (ok tt, s')

-- The email; its first `call` looks up the firm's name.
unfoldable pub notification : ClaimRow → Action (Unit {0})
notification claim = do
  call (λ (s : Session). s)
  send (record {
    template = rejected_decision;
    reference = claim.claim_reference;
    recipient_email = claim.claimant_id;
  })

-- `execute`; `gov_notify` says whether that optional port is given.
unfoldable pub execute : Bool → RejectClaimCommand → Action (Unit {0})
unfolding assessment notification
execute gov_notify c = do
  found ← get_application_by_laa_reference c.laa_reference
  a ← or_raise found (application_not_found c.laa_reference)
  claim ← or_rollback (assessment a c)
  if gov_notify then or_ignore (notification claim) else pure tt
