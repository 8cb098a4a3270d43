-- ===== src/Tests/Decisions.antt =====
-- The decisions on an application, on concrete tables.
use laa_inquests_api.Prelude.{◌≡◌, refl, none, some, []}
use laa_inquests_api.Text.{Text, codes}
use laa_inquests_api.Enums.{duplicate_case}
use laa_inquests_api.Applications.Requests.{Refusal, GrantApplicationUpdate}
use laa_inquests_api.UseCases.Applications.{grant, refuse}
use laa_inquests_api.UseCases.Applications.Outcome.{
  Changes, ChangesOrNothing, refused_db, refuse_exact,
}
use laa_inquests_api.UseCases.Applications.Granted.{letter_address, granted_db, grant_exact}
use laa_inquests_api.Application.{Address, correspondence_recipient}
use laa_inquests_api.Applications.Certificate.{care_of, chosen_address}
use laa_inquests_api.Store.Yields.{Ending}
use laa_inquests_api.Tests.Data.{june_first, calm, start, case}

abbrev reference : Text
reference = codes "I1"

abbrev refusing : Refusal
refusing = record { reason_for_refusal = duplicate_case; justification = codes "Twice" }

abbrev granting : GrantApplicationUpdate
granting = record { certificate_start_date = june_first.date }

refuse_exact_example :
    Ending calm {A = Unit {0}}
      (λ _. Changes calm reference (λ a. refused_db calm a refusing) start.committed)
      (ChangesOrNothing calm reference (λ a. refused_db calm a refusing) start.committed)
      (refuse reference refusing calm start)
refuse_exact_example = refuse_exact calm reference refusing start refl

-- The answer of the provider details service.
abbrev office : Text → Address
office _ = record {
  address_line_1 = codes "2 Low Street";
  address_line_2 = none;
  town_or_city = codes "York";
  county = none;
  postcode = codes "YO1";
}

-- The client's letters go to a person, at the address that the client gave.
letter_address_run :
    letter_address calm office case
    ≡ some (
        care_of (codes "Ann") (record (office []) {
          address_line_1 = codes "1 High Street";
          town_or_city = codes "Leeds";
          postcode = codes "LS1";
        }))
unfolding chosen_address correspondence_recipient
letter_address_run = refl

grant_exact_example :
    Ending calm {A = Unit {0}}
      (λ _. Changes calm reference (λ a. granted_db calm office a granting) start.committed)
      (ChangesOrNothing calm reference (λ a. granted_db calm office a granting) start.committed)
      (grant office reference granting calm start)
grant_exact_example = grant_exact calm office reference granting start refl
