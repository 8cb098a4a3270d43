-- ===== src/Exceptions.antt =====
-- The exceptions that the use cases raise (app/use_cases/exceptions.py).
use laa_inquests_api.Text.{Text}
use laa_inquests_api.Messages.{ClaimValidationError}

-- `unexpected` is any exception of the database, the notification service or the provider
-- details service, and Python's `AttributeError`; `runtime_error`, `value_error` and `lookup_error` are
-- Python's.
pub data Exception : Type 0 where
  application_not_found provider_office_mismatch claim_not_found : Text → Exception
  invalid_claim : ClaimValidationError → Exception
  application_not_granted grant_decision_error refuse_decision_error : Exception
  provider_details_retrieval_error lookup_error : Exception
  claim_assessment_conflict unexpected runtime_error value_error : Exception
