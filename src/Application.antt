-- ===== src/Application.antt =====
-- The parts of an application that the claim logic reads: `Application`, `ApplicationProceeding`
-- and `Provider` of app/models/application/index.py, and app/domain/application.py.
use laa_inquests_api.Prelude.{ℕ, not, List, Option, none, some, String, if◌then◌else◌}
use laa_inquests_api.Text.{Text}
use laa_inquests_api.Calendar.{Date, Datetime}
use laa_inquests_api.Enums.{
  MeritsDecision, ReasonForRefusal, AddressSource, CorrespondenceRecipientType, is_granted,
}

pub record Provider : Type 0 where
  pub firm_code : Text
  pub office_id : Text
  pub email_address : Text

-- `ApplicationProceeding`, with the cost limitation, in whole pounds, of the `Proceeding` that it
-- refers to.
pub record ApplicationProceeding : Type 0 where
  pub merits_decision : MeritsDecision
  pub reason_for_refusal : Option ReasonForRefusal
  pub justification : Option Text
  pub proceeding_cost_limitation : Option ℕ
  pub substantive_cost_limitation_effective_date : Option Date
  pub certificate_issue_date : Option Date
  pub certificate_start_date : Option Date
  pub certificate_end_date : Option Date

pub record Deceased : Type 0 where
  pub deceased_first_name : Text
  pub deceased_last_name : Text
  pub deceased_date_of_birth : Text
  pub deceased_date_of_death : Text
  pub coroners_reference : Text

pub record Address : Type 0 where
  pub address_line_1 : Text
  pub address_line_2 : Option Text
  pub town_or_city : Text
  pub county : Option Text
  pub postcode : Text

-- The parts of a `Client` that its address on letters depends on, with the rows of its addresses.
pub record Client : Type 0 where
  pub correspondence_address_source : AddressSource
  pub correspondence_address : Option Address
  pub home_address : Option Address
  pub correspondence_recipient_type : Option CorrespondenceRecipientType
  pub correspondence_recipient_name : Option Text

-- The name in `Client.correspondence_recipient`
unfoldable pub correspondence_recipient : Client → Option Text
correspondence_recipient c = elim c.correspondence_recipient_type [
  | none ↦ none
  | some _ ↦ c.correspondence_recipient_name
]

-- `public_bodies` holds the values of the `PublicBodyId`s of the rows.
pub record Application : Type 0 where
  pub application_id : ℕ
  pub laa_reference : Text
  pub status : Option String
  pub created_at : Datetime
  pub client : Client
  pub provider : Provider
  pub deceased : Deceased
  pub public_bodies : List Text
  pub proceeding : ApplicationProceeding

-- `Application.overall_decision`
unfoldable pub overall_decision : Application → MeritsDecision
overall_decision a = a.proceeding.merits_decision

abbrev pub ungranted_substantive_cost_limitation : ℕ
ungranted_substantive_cost_limitation = 0

-- `ApplicationProceeding.substantive_cost_limitation`
unfoldable pub substantive_cost_limitation : ApplicationProceeding → Option ℕ
substantive_cost_limitation p =
    if not (is_granted p.merits_decision)
    then some ungranted_substantive_cost_limitation
    else p.proceeding_cost_limitation
