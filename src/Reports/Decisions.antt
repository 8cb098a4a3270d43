-- ===== src/Reports/Decisions.antt =====
-- The rows of the decisions report: app/domain/decisions_report.py.
use laa_inquests_api.Prelude.{
  ℕ, ◌+◌, ◌/◌, ◌%◌, Bool, true, false, Option, none, some, [], ◌∷◌, ◌++◌, String, if◌then◌else◌,
  Result, ok, err, ◌>>=◌, is_empty,
}
use laa_inquests_api.Text.{Text, codes, eq_text, decimal}
use laa_inquests_api.Calendar.{Datetime}
use laa_inquests_api.Calendar.Utc.{as_utc}
use laa_inquests_api.Enums.{
  ActorType, HistoryEventReference, application_assessment_completed, claim_assessment_completed,
  poa_auto_approved, poa_auto_rejected,
}
use laa_inquests_api.Events.{EventValue, null, string, strings, address, Dict, lookup}
use laa_inquests_api.AuditTrail.{resolve_history_username, starts_formula}

-- `InvalidDecisionRecordError` with its messages; `not_a_text` stands for the error of a value for
-- which Python has no hash or no `startswith`.
pub data DecisionError : Type 0 where
  unknown_application_decision unknown_refusal_reason unknown_claim_decision : DecisionError
  no_claim_reference no_submission_date no_event_data not_a_decision_event : DecisionError
  not_a_text : DecisionError

pub data SubmissionType : Type 0 where
  application claim : SubmissionType

pub record DecisionsReportSourceRecord : Type 0 where
  pub event_reference : HistoryEventReference
  pub decided_at : Datetime
  pub actor : Text
  pub actor_type : ActorType
  pub actor_email_address : Option Text
  pub event_data : Option Dict
  pub laa_reference : Text
  pub application_submitted_at : Datetime
  pub claim_submitted_at : Option Datetime

-- The claim reference is the value that the event stores.
pub record DecisionsReportRow : Type 0 where
  pub submission_type : SubmissionType
  pub case_reference : Text
  pub claim_reference : EventValue
  pub decision : Text
  pub submission_date : Text
  pub date_of_decision : Text
  pub time_of_decision : Text
  pub who : Text
  pub refusal_reason : Text
  pub justification : Text

unfoldable pub neutralise_csv_formula : Text → Text
neutralise_csv_formula value = if starts_formula value then b'\'' ∷ value else value

-- Two digits, as `%d`, `%m`, `%H`, `%M` and `%S` print them.
unfoldable pub two_digits : ℕ → Text
two_digits n = (b'0' + n / 10) ∷ (b'0' + n % 10) ∷ []

-- `strftime("%d-%m-%Y")`
date_text : Datetime → Text
unfolding two_digits decimal
date_text t =
    two_digits t.date.day
    ++ codes "-"
    ++ two_digits t.date.month
    ++ codes "-"
    ++ decimal 4 t.date.year

-- `strftime("%H:%M:%S")`
unfoldable pub time_text : Datetime → Text
unfolding two_digits
time_text t =
    let seconds : ℕ = t.micros / 1000000 in
    two_digits (seconds / 3600)
    ++ codes ":"
    ++ two_digits (seconds / 60 % 60)
    ++ codes ":"
    ++ two_digits (seconds % 60)

-- `not value`
abbrev is_falsy : EventValue → Bool
is_falsy null = true
is_falsy (string t) = is_empty t
is_falsy (strings ts) = is_empty ts
is_falsy (address a) = is_empty a

-- A value as a key of a dictionary of texts: `None` where it is missing or null.
key_of : Option EventValue → Result DecisionError (Option Text)
key_of none = ok none
key_of (some null) = ok none
key_of (some (string t)) = ok (some t)
key_of (some (strings ts)) = err not_a_text
key_of (some (address a)) = err not_a_text

-- `value or ""`, of which only a text can be neutralised
text_or_empty : Option EventValue → Result DecisionError Text
text_or_empty none = ok []
text_or_empty (some (string t)) = ok t
text_or_empty (some v) = if is_falsy v then ok [] else err not_a_text

-- Whether the decision has the label.
abbrev is_label : Option Text → String → Bool
is_label none label = false
is_label (some t) label = eq_text t (codes label)

-- `_CLAIM_DECISION_LABELS`
claim_decision_label : Option Text → Option Text
claim_decision_label decision =
    if is_label decision "PAY_IN_FULL"
    then some (codes "Pay in full")
    else (if is_label decision "REJECTED" then some (codes "Rejected") else none)

-- `_REFUSAL_REASON_LABELS`
refusal_reason_label : Option Text → Option Text
refusal_reason_label reason =
    if is_label reason "NOT_IN_SCOPE"
    then some (codes "Not in scope")
    else (if is_label reason "INSUFFICIENT_INFORMATION"
        then some (codes "Insufficient information")
        else (if is_label reason "DUPLICATE_CASE" then some (codes "Duplicate case") else none))

abbrev or_error {ℓ} : {A : Type ℓ} → Option A → DecisionError → Result DecisionError A
or_error none e = err e
or_error (some a) e = ok a

-- `_build_row`
unfoldable pub build_row :
    DecisionsReportSourceRecord
    → SubmissionType
    → EventValue
    → Text
    → Datetime
    → Text
    → Text
    → DecisionsReportRow
unfolding date_text time_text neutralise_csv_formula
build_row source submission_type claim_reference decision submitted_at reason justification =
    record {
      submission_type = submission_type;
      case_reference = source.laa_reference;
      claim_reference = claim_reference;
      decision = decision;
      submission_date = date_text (as_utc submitted_at);
      date_of_decision = date_text (as_utc source.decided_at);
      time_of_decision = time_text (as_utc source.decided_at);
      who =
          neutralise_csv_formula
            (resolve_history_username source.actor_type source.actor source.actor_email_address);
      refusal_reason = reason;
      justification = neutralise_csv_formula justification;
    }

-- The refusal reason and the justification of a refused application's row.
refused_columns : Dict → Result DecisionError (Text × Text)
unfolding key_of refusal_reason_label text_or_empty lookup
refused_columns d = do
  reason ← key_of (lookup "refusal_reason" d)
  label ← or_error (refusal_reason_label reason) unknown_refusal_reason
  justification ← text_or_empty (lookup "refusal_justification" d)
  ok (label, justification)

refusal_columns : Text → Dict → Result DecisionError (Text × Text)
unfolding refused_columns
refusal_columns decision d =
    if eq_text decision (codes "Refused") then refused_columns d else ok ([], [])

-- The decision of an application, if it is one of `_APPLICATION_DECISIONS`.
application_decision : Option Text → Option Text
application_decision decision =
    if is_label decision "Granted"
    then some (codes "Granted")
    else (if is_label decision "Refused" then some (codes "Refused") else none)

-- `_application_row`
unfoldable pub application_row :
    DecisionsReportSourceRecord → Result DecisionError DecisionsReportRow
unfolding key_of application_decision refusal_columns build_row lookup
application_row r = do
  d ← or_error r.event_data no_event_data
  merits_decision ← key_of (lookup "merits_decision" d)
  decision ← or_error (application_decision merits_decision) unknown_application_decision
  columns ← refusal_columns decision d
  ok (build_row r application (string []) decision r.application_submitted_at columns.0 columns.1)

-- The claim reference of the event, if it is not falsy.
claim_reference_of : Option EventValue → Option EventValue
claim_reference_of none = none
claim_reference_of (some v) = if is_falsy v then none else some v

-- `_claim_row`
unfoldable pub claim_row :
    DecisionsReportSourceRecord
    → Option EventValue
    → Option EventValue
    → Result DecisionError DecisionsReportRow
unfolding key_of claim_decision_label claim_reference_of text_or_empty build_row lookup
claim_row r claim_decision decision_justification = do
  decision ← key_of claim_decision
  label ← or_error (claim_decision_label decision) unknown_claim_decision
  d ← or_error r.event_data no_event_data
  claim_reference ← or_error (claim_reference_of (lookup "claim_reference" d)) no_claim_reference
  submitted_at ← or_error r.claim_submitted_at no_submission_date
  justification ← text_or_empty decision_justification
  ok (build_row r claim claim_reference label submitted_at [] justification)

-- A claim's row from the decision that the event stores.
assessed_claim_row : DecisionsReportSourceRecord → Result DecisionError DecisionsReportRow
unfolding claim_row lookup
assessed_claim_row r = do
  d ← or_error r.event_data no_event_data
  claim_row r (lookup "claim_decision" d) (lookup "decision_justification" d)

unfoldable pub build_decisions_report_row :
    DecisionsReportSourceRecord → Result DecisionError DecisionsReportRow
unfolding application_row claim_row assessed_claim_row
build_decisions_report_row r = elim r.event_reference [
  | application_assessment_completed ↦ application_row r
  | claim_assessment_completed ↦ assessed_claim_row r
  | poa_auto_approved ↦ claim_row r (some (string (codes "PAY_IN_FULL"))) none
  | poa_auto_rejected ↦ claim_row r (some (string (codes "REJECTED"))) none
  | _ ↦ err not_a_decision_event
]
