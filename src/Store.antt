-- ===== src/Store.antt =====
-- The database behind app/adapters/claim_repository_adapter.py and
-- app/adapters/history_event_repository_adapter.py: its tables, one session on it, and calls that
-- may fail.
pub mod Tables
pub mod Actions
pub mod Repository
pub mod Triples
pub mod Writes
pub mod Caught
pub mod Goes
pub mod Yields
pub mod Exact
pub mod History
use laa_inquests_api.Prelude.{ℕ, Bool, List, Option}
use laa_inquests_api.Text.{Text}
use laa_inquests_api.Calendar.{Datetime}
use laa_inquests_api.Application.{Application}
use laa_inquests_api.Records.{
  ClaimRow, ClaimCostTemplate, ClaimInquestOutcome, ClaimDecision, DecisionReason,
  ClaimDecisionAmount, ClaimPaymentExtract, ClaimEvidence, HistoryEvent, DuplicateApplicationRecord,
}

pub record Db : Type 0 where
  pub applications : List Application
  pub claims : List ClaimRow
  pub templates : List ClaimCostTemplate
  pub outcomes : List ClaimInquestOutcome
  pub decisions : List ClaimDecision
  pub reasons : List DecisionReason
  pub amounts : List ClaimDecisionAmount
  pub extracts : List ClaimPaymentExtract
  pub evidence : List ClaimEvidence
  pub history : List HistoryEvent
  pub duplicates : List DuplicateApplicationRecord

-- The messages that the GOV.UK Notify service is asked to send.
pub data EmailTemplate : Type 0 where
  submit_confirmation granted_decision final_bill_paid rejected_decision : EmailTemplate
  application_submit_confirmation application_granted : EmailTemplate
  application_granted_letter application_refused : EmailTemplate

pub record Email : Type 0 where
  pub template : EmailTemplate
  pub reference : Text
  pub recipient_email : Option Text

-- A session: what is committed, what the open transaction reads and has written, how many calls of
-- outside code were made, how many references were drawn, and what was sent.
pub record Session : Type 0 where
  pub committed : Db
  pub working : Db
  pub calls : ℕ
  pub draws : ℕ
  pub sent : List Email

-- What the program does not decide: whether the n-th call of outside code raises, the clock, the
-- signed-in user, the keys that the database gives to new rows, the strings of random
-- allowed characters, and the
-- banned words in force.
pub record Env : Type 0 where
  pub fails : ℕ → Bool
  pub now : Datetime
  pub user_name : Option Text
  pub user_object_id : Option Text
  pub user_email_address : Option Text
  pub new_application_id : Db → ℕ
  pub new_claim_id : Db → ℕ
  pub new_decision_id : Db → ℕ
  pub random_chars : ℕ → Text
  pub banned_words : List Text
