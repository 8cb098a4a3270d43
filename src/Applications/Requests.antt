-- ===== src/Applications/Requests.antt =====
-- The requests to refuse and to grant an application: app/models/application/index.py.
use laa_inquests_api.Prelude.{
  ◌≡◌, ◌↔◌, false, Option, none, some, Result, ok, err, Check, raise_if, arith, if◌then◌else◌,
}
use laa_inquests_api.Text.{Text, is_blank}
use laa_inquests_api.Calendar.{Date, Datetime, before}
use laa_inquests_api.Enums.{ReasonForRefusal}

-- The `ValueError`s of the validators.
pub data RequestError : Type 0 where
  reason_for_refusal_is_required justification_is_required : RequestError
  certificate_start_date_in_future : RequestError

pub record RefuseApplicationUpdate : Type 0 where
  pub reason_for_refusal : Option ReasonForRefusal
  pub justification : Option Text

pub record GrantApplicationUpdate : Type 0 where
  pub certificate_start_date : Date

-- What `validate_refusal_fields` lets through: a reason and a justification.
pub record Refusal : Type 0 where
  pub reason_for_refusal : ReasonForRefusal
  pub justification : Text

justified : ReasonForRefusal → Option Text → Result RequestError Refusal
unfolding is_blank
justified reason none = err justification_is_required
justified reason (some t) =
    if is_blank t
    then err justification_is_required
    else ok (record { reason_for_refusal = reason; justification = t })

unfoldable pub validate_refusal_fields : RefuseApplicationUpdate → Result RequestError Refusal
unfolding justified
validate_refusal_fields r = elim r.reason_for_refusal [
  | none ↦ err reason_for_refusal_is_required
  | some reason ↦ justified reason r.justification
]

-- `now` is `datetime.now(UTC)`.
unfoldable pub validate_certificate_start_date :
    Datetime → GrantApplicationUpdate → Check RequestError
validate_certificate_start_date now r =
    raise_if (before now.date r.certificate_start_date) certificate_start_date_in_future

-- A refusal is accepted exactly when it gives that reason and that justification, and the
-- justification is not blank.
pub validate_refusal_fields_iff :
    (r : RefuseApplicationUpdate) (f : Refusal)
    → (validate_refusal_fields r ≡ ok f) ↔ (
        (r.reason_for_refusal ≡ some f.reason_for_refusal)
        × (r.justification ≡ some f.justification)
        × (is_blank f.justification ≡ false))
unfolding validate_refusal_fields
validate_refusal_fields_iff r f = ground arith
