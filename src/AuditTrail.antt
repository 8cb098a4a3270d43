-- ===== src/AuditTrail.antt =====
-- The events of the audit trail: app/domain/audit_trail.py, with the report types and event
-- references of app/models/audit/enums.py.
pub mod Catalogue
use laa_inquests_api.Prelude.{
  ℕ, ◌≡◌, ◌⊎◌, refl, inl, inr, Bool, true, false, ◌||◌, Bool-cases, Option, none, some, [], ◌∷◌,
  String, arith, ◌==◌, if◌then◌else◌, is_empty,
}
use laa_inquests_api.Text.{Text, codes}
use laa_inquests_api.Calendar.{Datetime}
use laa_inquests_api.Enums.{ActorType, system, caseworker, provider}
use laa_inquests_api.Events.{Dict, string}

pub data ReportType : Type 0 where
  claims_backlog applications_backlog payment_extract audit_trail : ReportType
  decisions ogd_costs cost_limit_forecast : ReportType

-- `ReportType(...).value`
abbrev report_type_value : ReportType → Text
report_type_value claims_backlog = codes "Claims Backlog"
report_type_value applications_backlog = codes "Applications Backlog"
report_type_value payment_extract = codes "Payment Extract"
report_type_value audit_trail = codes "User Audit Trail"
report_type_value decisions = codes "Decisions"
report_type_value ogd_costs = codes "OGD Costs"
report_type_value cost_limit_forecast = codes "Cost Limit Forecast"

pub record AuditTrailEvent : Type 0 where
  pub occurred_at : Datetime
  pub event_reference : String
  pub username : Text
  pub laa_reference : Option Text
  pub firm_code : Option Text
  pub office_id : Option Text
  pub event_data : Option Dict

abbrev pub system_username : Text
system_username = codes "System"

-- `_FORMULA_PREFIXES`: `=`, `+`, `-`, `@`, tab and carriage return
abbrev pub is_formula_prefix : ℕ → Bool
is_formula_prefix c =
    (c == b'=') || (c == b'+') || (c == b'-') || (c == b'@') || (c == 9) || (c == 13)

-- `value.startswith(_FORMULA_PREFIXES)`
abbrev pub starts_formula : Text → Bool
starts_formula [] = false
starts_formula (c ∷ t) = is_formula_prefix c

unfoldable pub csv_safe : Text → Text
csv_safe value = if starts_formula value then b'\'' ∷ value else value

-- `actor_email_address or actor`, for an address that may be missing or empty
abbrev pub or_default : Option Text → Text → Text
or_default none d = d
or_default (some t) d = if is_empty t then d else t

unfoldable pub resolve_history_username : ActorType → Text → Option Text → Text
resolve_history_username system actor actor_email_address = system_username
resolve_history_username caseworker actor actor_email_address = or_default actor_email_address actor
resolve_history_username provider actor actor_email_address = actor

abbrev pub is_provider : ActorType → Bool
is_provider provider = true
is_provider _ = false

unfoldable pub history_event :
    Datetime
    → String
    → ActorType
    → Text
    → Option Text
    → Option Text
    → Option Text
    → Option Text
    → Option Dict
    → AuditTrailEvent
unfolding resolve_history_username
history_event occurred_at event_reference actor_type actor email laa_reference firm office
      event_data =
    record {
      occurred_at = occurred_at;
      event_reference = event_reference;
      username = resolve_history_username actor_type actor email;
      laa_reference = laa_reference;
      firm_code = if is_provider actor_type then firm else none;
      office_id = if is_provider actor_type then office else none;
      event_data = event_data;
    }

-- An event without a firm, by a user whose address is known.
abbrev user_event : Datetime → String → Text → Option Text → Option Dict → AuditTrailEvent
user_event occurred_at event_reference email laa_reference event_data = record {
  occurred_at = occurred_at;
  event_reference = event_reference;
  username = email;
  laa_reference = laa_reference;
  firm_code = none;
  office_id = none;
  event_data = event_data;
}

unfoldable pub application_overview_view_event : Datetime → Text → Text → AuditTrailEvent
application_overview_view_event occurred_at email laa_reference =
    user_event occurred_at "EVT-AUD-001" email (some laa_reference) none

unfoldable pub application_certificate_view_event : Datetime → Text → Text → AuditTrailEvent
application_certificate_view_event occurred_at email laa_reference =
    user_event occurred_at "EVT-AUD-002" email (some laa_reference) none

unfoldable pub report_download_event : Datetime → Text → ReportType → AuditTrailEvent
report_download_event occurred_at email report_type =
    user_event occurred_at "EVT-AUD-003" email none
      (some (("report_name", string (report_type_value report_type)) ∷ []))

-- A cell that csv_safe gives never begins with a character that starts a formula, it is the value
-- or the value behind one apostrophe, and making it safe again changes nothing.
pub csv_safe_lem :
    (value : Text)
    → (starts_formula (csv_safe value) ≡ false)
      × ((csv_safe value ≡ value)
          ⊎ ((csv_safe value ≡ b'\'' ∷ value) × (starts_formula value ≡ true)))
      × (csv_safe (csv_safe value) ≡ csv_safe value)
unfolding csv_safe
csv_safe_lem value = elim (Bool-cases (starts_formula value)) [
  | inl e ↦ rw (e) (refl, inr (refl, refl), refl)
  | inr e ↦ rw (e) (e, inl refl, rw (e) refl)
]
