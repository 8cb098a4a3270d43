-- ===== src/Reports/Described.antt =====
-- The stored events as the reports read them: `get_decisions_report_records` of
-- app/adapters/history_event_repository_adapter.py and `iter_history_events` of
-- app/adapters/audit_trail_repository_adapter.py, for one event.
use laa_inquests_api.Prelude.{
  ◌≡◌, refl, Bool, true, false, not, Option, some, Result, is_ok, is_empty, arith,
}
use laa_inquests_api.Prelude.Int.{ℤ}
use laa_inquests_api.Text.{Text}
use laa_inquests_api.Calendar.{Datetime}
use laa_inquests_api.Calendar.Utc.{as_utc}
use laa_inquests_api.Enums.{
  HistoryEventReference, application_assessment_completed, claim_assessment_completed,
  poa_auto_approved, poa_auto_rejected, not_in_scope, insufficient_information, duplicate_case,
}
use laa_inquests_api.Records.{
  EventData, HistoryEvent, submission_data, claim_reference_data, pay_in_full_data, rejection_data,
}
use laa_inquests_api.Events.{EventValue, event_dict, reference_value}
use laa_inquests_api.AuditTrail.{AuditTrailEvent, history_event}
use laa_inquests_api.AuditTrail.Catalogue.{EventDescriptionError, EventDescription, describe_event}
use laa_inquests_api.Reports.Decisions.{DecisionsReportSourceRecord, build_decisions_report_row}
use laa_inquests_api.Store.History.{
  Written, IsWritten, note, submitted, submission_confirmed, granted, certified, grant_emailed,
  grant_posted, refused, refusal_emailed, parties, claimed, claim_confirmed, auto_approved,
  auto_rejected, paid, paid_emailed, approval_emailed, rejected, rejection_emailed,
}

-- `DECISION_EVENT_REFERENCES`
abbrev pub is_decision : HistoryEventReference → Bool
is_decision application_assessment_completed = true
is_decision claim_assessment_completed = true
is_decision poa_auto_approved = true
is_decision poa_auto_rejected = true
is_decision _ = false

-- Whether the claim reference that the data has, if it has one, is not empty.
abbrev pub names_claim : EventData → Bool
names_claim (submission_data c reference) = not (is_empty reference)
names_claim (claim_reference_data reference) = not (is_empty reference)
names_claim (pay_in_full_data c reference a) = not (is_empty reference)
names_claim (rejection_data c reference t) = not (is_empty reference)
names_claim _ = true

-- `str_amount` and `str_other` are the texts of amounts and of values that are no texts.
module _ (str_amount : ℤ → Text) (str_other : EventValue → Text) where
  -- The record of a stored event in `get_decisions_report_records`.
  unfoldable pub source_record :
      HistoryEvent → Text → Datetime → Option Datetime → DecisionsReportSourceRecord
  source_record e laa_reference application_submitted_at claim_submitted_at = record {
    event_reference = e.event_reference;
    decided_at = e.timestamp;
    actor = e.actor;
    actor_type = e.actor_type;
    actor_email_address = e.actor_email_address;
    event_data = event_dict str_amount e.event_data;
    laa_reference = laa_reference;
    application_submitted_at = application_submitted_at;
    claim_submitted_at = claim_submitted_at;
  }

  -- The event of a stored event in `iter_history_events`.
  unfoldable pub audit_event : HistoryEvent → Text → Text → Text → AuditTrailEvent
  audit_event e laa_reference firm_code office_id =
      history_event (as_utc e.timestamp) (reference_value e.event_reference) e.actor_type e.actor
        e.actor_email_address (some laa_reference) (some firm_code) (some office_id)
        (event_dict str_amount e.event_data)

  unfoldable pub described : AuditTrailEvent → Result EventDescriptionError EventDescription
  described event = describe_event str_other event.event_reference event.event_data

  describe_written :
      (reference : HistoryEventReference) (payload : EventData)
      → Written reference payload
      → is_ok (describe_event str_other (reference_value reference) (event_dict str_amount payload))
        ≡ true
  unfolding describe_event event_dict
  describe_written _ _ (note t) = refl
  describe_written _ _ submitted = refl
  describe_written _ _ (submission_confirmed t) = refl
  describe_written _ _ granted = refl
  describe_written _ _ (certified t) = refl
  describe_written _ _ (grant_emailed t) = refl
  describe_written _ _ (grant_posted a) = refl
  describe_written _ _ (refused r t) = refl
  describe_written _ _ (refusal_emailed t) = refl
  describe_written _ _ (parties old new) = refl
  describe_written _ _ (claimed c t) = refl
  describe_written _ _ (claim_confirmed t) = refl
  describe_written _ _ (auto_approved t) = refl
  describe_written _ _ (auto_rejected t) = refl
  describe_written _ _ (paid c t a) = refl
  describe_written _ _ (paid_emailed t) = refl
  describe_written _ _ (approval_emailed t) = refl
  describe_written _ _ (rejected c r t) = ground arith
  describe_written _ _ (rejection_emailed t) = refl

  abbrev pub IsDescribed : HistoryEvent → Type 0
  IsDescribed e =
      (laa_reference firm_code office_id : Text)
      → is_ok (described (audit_event e laa_reference firm_code office_id)) ≡ true

  -- The audit trail can describe every event whose data goes with its reference.
  pub IsWritten-described :
      (e : HistoryEvent) (laa_reference firm_code office_id : Text)
      → IsWritten e
      → is_ok (described (audit_event e laa_reference firm_code office_id)) ≡ true
  unfolding described audit_event history_event
  IsWritten-described e laa_reference firm_code office_id w =
      describe_written e.event_reference e.event_data w

  -- An event of a decision whose data goes with its reference has a row in the decisions report, where
  -- its claim reference, if it has one, is not empty.
  pub IsWritten-build_decisions_report_row :
      (e : HistoryEvent) (laa_reference : Text) (submitted_at claimed_at : Datetime)
      → IsWritten e
      → is_decision e.event_reference ≡ true
      → names_claim e.event_data ≡ true
      → is_ok (
          build_decisions_report_row (source_record e laa_reference submitted_at (some claimed_at)))
        ≡ true
  unfolding build_decisions_report_row source_record event_dict
  IsWritten-build_decisions_report_row e laa_reference submitted_at claimed_at w d n =
      go e.event_reference e.event_data w d n
    where
      go :
          (reference : HistoryEventReference) (payload : EventData)
          → Written reference payload
          → is_decision reference ≡ true
          → names_claim payload ≡ true
          → is_ok (
              build_decisions_report_row (
                source_record
                  (record e { event_reference = reference; event_data = payload })
                  laa_reference
                  submitted_at
                  (some claimed_at)))
            ≡ true
      go _ _ granted d n = refl
      go _ _ (refused not_in_scope t) d n = refl
      go _ _ (refused insufficient_information t) d n = refl
      go _ _ (refused duplicate_case t) d n = refl
      go _ _ (auto_approved t) d n = ground arith
      go _ _ (auto_rejected t) d n = ground arith
      go _ _ (paid c t a) d n = ground arith
      go _ _ (rejected c r t) d n = ground arith
      go _ _ (note t) d n = absurd (ground arith)
      go _ _ submitted d n = absurd (ground arith)
      go _ _ (submission_confirmed t) d n = absurd (ground arith)
      go _ _ (certified t) d n = absurd (ground arith)
      go _ _ (grant_emailed t) d n = absurd (ground arith)
      go _ _ (grant_posted a) d n = absurd (ground arith)
      go _ _ (refusal_emailed t) d n = absurd (ground arith)
      go _ _ (parties old new) d n = absurd (ground arith)
      go _ _ (claimed c t) d n = absurd (ground arith)
      go _ _ (claim_confirmed t) d n = absurd (ground arith)
      go _ _ (paid_emailed t) d n = absurd (ground arith)
      go _ _ (approval_emailed t) d n = absurd (ground arith)
      go _ _ (rejection_emailed t) d n = absurd (ground arith)
