-- ===== src/UseCases/Applications.antt =====
-- The use cases on applications: app/use_cases/grant_decision.py, refuse_decision.py,
-- update_public_bodies.py, create_note.py, create_application.py and
-- identify_duplicate_applications.py.
pub mod Recorded
pub mod Outcome
pub mod Granted
use laa_inquests_api.Prelude.{
  ℕ, Bool, true, false, not, Option, none, some, List, [], ◌∷◌, any, is_empty, String, ok, err,
  if◌then◌else◌,
}
use laa_inquests_api.Text.{Text, eq_text}
use laa_inquests_api.Calendar.{Date}
use laa_inquests_api.Enums.{
  ActorType, caseworker, system, provider, MeritsDecision, HistoryEventReference, case_note_added,
  application_submitted, application_assessment_completed, certificate_created,
  interested_party_updated, application_submission_confirmation, application_granted_email,
  application_refused, is_granted,
}
use laa_inquests_api.Exceptions.{
  Exception, application_not_found, application_not_granted, unexpected, grant_decision_error,
  refuse_decision_error, provider_office_mismatch, provider_details_retrieval_error, value_error,
}
use laa_inquests_api.Application.{Address, Application, ApplicationProceeding, overall_decision}
use laa_inquests_api.Applications.Requests.{Refusal, GrantApplicationUpdate}
use laa_inquests_api.Applications.Repository.{
  ApplicationCreate, update_decision, update_public_bodies, identify_duplicates,
  create_duplicate_records, create_application,
}
use laa_inquests_api.Applications.Certificate.{populate_certificate_context, address_fields}
use laa_inquests_api.Records.{
  no_data, note_data, grant_data, refusal_data, certificate_data, letter_data, public_bodies_data,
  email_data,
}
use laa_inquests_api.Store.{
  Session, Env, EmailTemplate, application_submit_confirmation, application_granted,
}
use laa_inquests_api.Store.Actions.{
  Action, pure, raise, guard, or_raise, call, send, commit, or_rollback, rollback, ◌>>=◌, ◌>>◌,
}
use laa_inquests_api.Store.Repository.{get_application_by_laa_reference, create_history_event}
use laa_inquests_api.UseCases.CreateClaim.Phases.{system_name}
use laa_inquests_api.UseCases.RejectClaim.{user_name}

-- `try: m except Exception: rollback; raise error`
abbrev pub or_fail : {A : Type 0} → Action A → Exception → Action A
or_fail m error env s =
    let (r, s') = m env s in elim r [ ok a ↦ (ok a, s') | err _ ↦ (err error, rollback s') ]

-- The proceeding of a granted application; `today` is `datetime.now(UTC).date()`.
unfoldable pub granted_proceeding :
    Date → GrantApplicationUpdate → ApplicationProceeding → ApplicationProceeding
granted_proceeding today request p = record p {
  merits_decision = MeritsDecision.granted;
  reason_for_refusal = none;
  justification = none;
  substantive_cost_limitation_effective_date = some request.certificate_start_date;
  certificate_start_date = some request.certificate_start_date;
  certificate_issue_date = some today;
}

unfoldable pub refused_proceeding : Refusal → ApplicationProceeding → ApplicationProceeding
refused_proceeding request p = record p {
  merits_decision = MeritsDecision.refused;
  reason_for_refusal = some request.reason_for_refusal;
  justification = some request.justification;
}

-- `get_office_address` gives the addresses of offices that the provider details service knows.
module _ (get_office_address : Text → Address) where
  -- The `try` block of the grant, without its commits: after the certificate's address the first
  -- `call` makes the rest of its context, and the other prints and sends the letter.
  unfoldable pub announce_grant : Application → Action (Unit {0})
  announce_grant a = do
    client_address ← populate_certificate_context (get_office_address a.provider.office_id) a
    call (λ (s : Session). s)
    send (record {
      template = application_granted;
      reference = a.laa_reference;
      recipient_email = some a.provider.email_address;
    })
    user ← user_name
    create_history_event certificate_created user caseworker a.application_id
        (certificate_data a.laa_reference)
    create_history_event application_granted_email system_name system a.application_id
        (email_data a.provider.email_address)
    call (λ (s : Session). s)
    address ← or_raise client_address unexpected
    create_history_event HistoryEventReference.application_granted_letter system_name system
        a.application_id (letter_data (address_fields address))

  unfoldable pub today : Action Date
  today env s = (ok env.now.date, s)

  -- `GrantDecisionUseCase.execute`
  unfoldable pub grant : Text → GrantApplicationUpdate → Action (Unit {0})
  unfolding today
  grant laa_reference request = do
    found ← get_application_by_laa_reference laa_reference
    a ← or_raise found (application_not_found laa_reference)
    date ← today
    update_decision a.application_id (granted_proceeding date request a.proceeding)
    user ← user_name
    create_history_event application_assessment_completed user caseworker a.application_id
        grant_data
    or_fail (announce_grant a >> (commit >> commit)) grant_decision_error

-- The `try` block of the refusal, without its commits.
unfoldable pub announce_refusal : Application → Action (Unit {0})
announce_refusal a = do
  send (record {
    template = EmailTemplate.application_refused;
    reference = a.laa_reference;
    recipient_email = some a.provider.email_address;
  })
  create_history_event HistoryEventReference.application_refused system_name system a.application_id
      (email_data a.provider.email_address)

-- `RefuseDecisionUseCase.execute`
unfoldable pub refuse : Text → Refusal → Action (Unit {0})
refuse laa_reference request = do
  found ← get_application_by_laa_reference laa_reference
  a ← or_raise found (application_not_found laa_reference)
  update_decision a.application_id (refused_proceeding request a.proceeding)
  user ← user_name
  create_history_event application_assessment_completed user caseworker a.application_id
      (refusal_data request.reason_for_refusal request.justification)
  or_fail (announce_refusal a >> (commit >> commit)) refuse_decision_error

-- The `try` block of the new public bodies, without its commit.
unfoldable pub replace_public_bodies : Application → List Text → Action (Unit {0})
replace_public_bodies a public_body_ids = do
  update_public_bodies a.application_id public_body_ids
  user ← user_name
  create_history_event interested_party_updated user caseworker a.application_id
      (public_bodies_data a.public_bodies public_body_ids)

-- `UpdatePublicBodiesUseCase.execute`
unfoldable pub change_public_bodies : Text → List Text → Action (Unit {0})
change_public_bodies laa_reference public_body_ids = do
  found ← get_application_by_laa_reference laa_reference
  a ← or_raise found (application_not_found laa_reference)
  guard (not (is_granted (overall_decision a))) application_not_granted
  guard (is_empty public_body_ids) value_error
  or_rollback (replace_public_bodies a public_body_ids >> commit)

-- `CreateNoteUseCase.execute`
unfoldable pub create_note : Text → Text → Action (Unit {0})
create_note laa_reference note_text = do
  found ← get_application_by_laa_reference laa_reference
  a ← or_raise found (application_not_found laa_reference)
  or_rollback (
      user_name >>= λ user.
      create_history_event case_note_added user caseworker a.application_id (note_data note_text)
      >> commit)

-- `IdentifyDuplicateApplicationsUseCase.execute`
unfoldable pub record_duplicates : ℕ → Action (Unit {0})
record_duplicates id = do
  ids ← identify_duplicates id
  if is_empty ids then pure tt else create_duplicate_records id ids

-- The `try` block of the creation; `does_office_exist` is the answer of the provider details
-- service.
unfoldable pub submit_application : (Text → Bool) → List Text → Application → Action (Unit {0})
submit_application does_office_exist office_codes a = do
  guard (not (any (eq_text a.provider.office_id) office_codes))
      (provider_office_mismatch a.provider.office_id)
  call (λ (s : Session). s)
  guard (not (does_office_exist a.provider.office_id)) provider_details_retrieval_error
  record_duplicates a.application_id
  create_history_event application_submitted (some a.provider.email_address) provider
      a.application_id no_data
  send (record {
    template = application_submit_confirmation;
    reference = a.laa_reference;
    recipient_email = some a.provider.email_address;
  })
  create_history_event application_submission_confirmation system_name system a.application_id
      (email_data a.provider.email_address)
  commit

-- `CreateApplicationUseCase.execute`
unfoldable pub create : (Text → Bool) → ApplicationCreate → Text → List Text → Action Application
create does_office_exist request firm_code office_codes = do
  a ← create_application request firm_code
  or_rollback (submit_application does_office_exist office_codes a)
  pure a
