-- ===== src/Lib.antt =====
-- A verification library of the inquests API (app/): the rules, the automatic review, the amounts
-- and the payment lines of claims, the use cases that submit, reject and pay them and that decide
-- applications, the history of events, the reports that read it, and the roles of users.
--
-- How the parts of the program interact: a router builds a command and calls the `execute` of a use
-- case (app/use_cases); that reads and writes through the repository adapters (app/adapters) and
-- decides by the domain code (app/domain).
--
-- - Text, Calendar: Python's strings and dates, as far as the claim logic uses them, and
--   app/domain/date_utils.py. A string is the list of its code points; statuses and file names are
--   native strings.
-- - Money: app/domain/claim_total.py, app/domain/constants/claims.py, the available funds of
--   app/domain/claim.py and `bankers_round`. A `Decimal` of the database is its whole number of
--   pence, a product with a payment rate its number of ten-thousandths of a pound, a cost limit its
--   whole number of pounds.
-- - Enums, Messages, Application, Records, Exceptions: the data of app/models, the error codes and
--   the exceptions.
-- - Claim, Claim/Totals, Claim/Review: `class Claim` of app/domain/claim.py. `post_init` is
--   `__post_init__`; `validate_total_claim_cost`, which changes the object, returns the changed
--   claim. Claim/Rules, Claim/Totals/Laws and Claim/Review/Approval are about what they accept.
-- - PayInFull: app/domain/pay_in_full.py. PaymentExtract: app/domain/payment_extract.py.
-- - Store: the database. Store/Tables reads and changes its tables, Store/Actions are actions on a
--   session, with exceptions, Store/Repository the methods of the repository adapters.
--   Store/Triples, Store/Writes and Store/Caught are about what actions do to the claims and the
--   decisions, Store/Goes about runs in which no call fails.
-- - Applications: Applications/Requests are requests of app/models/application/index.py,
--   Applications/Certificate the client's address of app/use_cases/create_certificate_context.py,
--   Applications/Repository and Applications/Duplicates the methods of
--   app/adapters/application_repository_adapter.py. ReferenceRules: app/domain/reference_rules.py.
-- - Events: the dictionaries that the use cases store with an event. AuditTrail and
--   AuditTrail/Catalogue: app/domain/audit_trail.py and app/domain/audit_event_catalogue.py.
--   Store/History lists which kind of data goes with which reference.
-- - Reports: Reports/DateRange is app/use_cases/report_date_range.py, Reports/Decisions
--   app/domain/decisions_report.py, Reports/PaymentLines app/domain/payment_extract_report.py with
--   the checks of app/use_cases/generate_payment_extract_report.py, Reports/CostLimitForecast
--   app/domain/cost_limit_forecast_report.py, Reports/AuditTrailReport
--   app/use_cases/generate_audit_trail_report.py with the streams of
--   app/adapters/audit_trail_repository_adapter.py, whose orders Sorting models; Reports/Described reads a stored event for the audit
--   trail and for the decisions report.
-- - Rbac: app/auth/rbac.py.
-- - UseCases/Applications: app/use_cases/grant_decision.py, refuse_decision.py,
--   update_public_bodies.py, create_note.py, create_application.py and
--   identify_duplicate_applications.py. UseCases/Sequence runs requests one after another, and
--   UseCases/History and UseCases/Applications/Recorded are about the events that they write,
--   UseCases/Applications/Outcome, UseCases/Applications/Granted, Store/Exact and Store/Yields about what
--   decisions commit.
-- - UseCases/CreateClaim, UseCases/RejectClaim, UseCases/PayInFullClaim: app/use_cases/create_claim.py,
--   app/use_cases/reject_claim.py and app/use_cases/pay_in_full_claim.py. The Outcome modules
--   are about what they commit, UseCases/RejectClaim/Success about when a rejection succeeds.
--
-- What is outside: `Env` holds what the program does not decide, the failure of each call of the
-- database, the notification service or the provider details service, the time, the user, new keys,
-- random characters and banned words. The model holds for every `Env`. In the submission of a claim,
-- the reads of objects that a commit or a rollback has expired are such calls too (`reload`).
--
-- Bounds: a claim reference and an LAA reference are drawn at most ten times, as in the code; no other
-- loop needs fuel.
--
-- Not modelled: row locks and other sessions (a session runs alone), the year limit of
-- `datetime.date`, amounts with fractions of a penny, upper case letters beyond ASCII, failing
-- rollbacks, logging, the names of clients and the other fields of certificates, the report
-- of the costs of government departments and the backlogs, documents and the web layer. A report's
-- rows are modelled, not the text of its CSV file.
pub mod Prelude
pub mod Text
pub mod Calendar
pub mod Money
pub mod Enums
pub mod Messages
pub mod Application
pub mod Claim
pub mod PayInFull
pub mod Exceptions
pub mod Records
pub mod PaymentExtract
pub mod Events
pub mod AuditTrail
pub mod Reports
pub mod Sorting
pub mod Store
pub mod Rbac
pub mod ReferenceRules
pub mod Applications
pub mod UseCases
mod Tests
