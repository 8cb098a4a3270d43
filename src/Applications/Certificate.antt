-- ===== src/Applications/Certificate.antt =====
-- The client's address on a certificate: `populate_certificate_context` of
-- app/use_cases/create_certificate_context.py.
use laa_inquests_api.Prelude.{Option, none, some, List, [], ◌∷◌, ◌++◌, String}
use laa_inquests_api.Text.{Text, codes}
use laa_inquests_api.Enums.{use_provider_address, use_specified_address, use_client_home_address}
use laa_inquests_api.Exceptions.{unexpected}
use laa_inquests_api.Application.{Application, Address, Client, correspondence_recipient}
use laa_inquests_api.Applications.Repository.{change_application}
use laa_inquests_api.Store.Actions.{Action, pure, raise, call, modify, ◌>>◌}

-- The address before the recipient is added; `office` is the copy of the provider's.
unfoldable pub chosen_address : Address → Client → Option Address
chosen_address office c = elim c.correspondence_address_source [
  | use_provider_address ↦ some office
  | use_specified_address ↦ c.correspondence_address
  | use_client_home_address ↦ c.home_address
]

-- The first line `f"c/o {name} {line}"`
abbrev pub care_of : Text → Address → Address
care_of name address = record address {
  address_line_1 = codes "c/o " ++ (name ++ (b' ' ∷ address.address_line_1));
}

-- The client whose chosen address has a new value; the provider's address is a copy, which is not
-- the client's.
unfoldable pub assign_address : Address → Client → Client
assign_address address c = elim c.correspondence_address_source [
  | use_provider_address ↦ c
  | use_specified_address ↦ record c { correspondence_address = some address }
  | use_client_home_address ↦ record c { home_address = some address }
]

abbrev pub set_client : Client → Application → Application
set_client c a = record a { client = c }

-- The assignment to `client_address.address_line_1`. The address belongs to the session, so the
-- next commit keeps it.
unfoldable pub add_recipient : Application → Option Address → Action (Option Address)
add_recipient a chosen = elim (correspondence_recipient a.client) [
  | none ↦ pure chosen
  | some name ↦ elim chosen [
    | none ↦ raise unexpected
    | some address ↦
        modify (
          change_application a.application_id
            (set_client (assign_address (care_of name address) a.client)))
        >> pure (some (care_of name address))
  ]
]

-- `populate_certificate_context`, for the client's address; the calls are `get_firm_name` and
-- `get_office_address`, of which `office` is the answer.
unfoldable pub populate_certificate_context : Address → Application → Action (Option Address)
unfolding chosen_address add_recipient
populate_certificate_context office a = do
  call (λ s. s)
  call (λ s. s)
  add_recipient a (chosen_address office a.client)

-- `client_address.model_dump()`
abbrev pub address_fields : Address → List (String × Option Text)
address_fields a =
    ("address_line_1", some a.address_line_1)
    ∷ ("address_line_2", a.address_line_2)
    ∷ ("town_or_city", some a.town_or_city)
    ∷ ("county", a.county)
    ∷ ("postcode", some a.postcode)
    ∷ []
