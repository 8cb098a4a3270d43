-- ===== src/AuditTrail/Catalogue.antt =====
-- The titles and descriptions of events: app/domain/audit_event_catalogue.py.
use laa_inquests_api.Prelude.{
  ℕ, Option, none, some, List, [], ◌∷◌, ◌++◌, String, map, ◌==◌, if◌then◌else◌, Result, ok, err,
  ◌>>=◌,
}
use laa_inquests_api.Text.{Text, codes, eq_text, upper, lower, is_blank}
use laa_inquests_api.Events.{EventValue, null, string, strings, address, Dict, lookup}

pub data EventDescriptionError : Type 0 where
  unknown_event_reference : String → EventDescriptionError
  invalid_event_data : String → String → EventDescriptionError

pub record EventDescription : Type 0 where
  pub title : Text
  pub description : Text

-- `text.capitalize()`
capitalize : Text → Text
unfolding lower upper
capitalize [] = []
capitalize (c ∷ t) = upper (c ∷ []) ++ lower t

-- `value.replace("_", " ")`
underscores_to_spaces : Text → Text
underscores_to_spaces = map (λ (c : ℕ). if c == b'_' then b' ' else c)

unfoldable pub format_enum : Text → Text
unfolding capitalize underscores_to_spaces
format_enum value = capitalize (lower (underscores_to_spaces value))

-- A `KeyError` carries its key.
abbrev Described : Type 0
Described = Result String Text

-- `(event_data or {})[key]`
item : Option Dict → String → Result String EventValue
unfolding lookup
item none key = err key
item (some d) key = elim (lookup key d) [ none ↦ err key | some v ↦ ok v ]

-- `", ".join(items)`
join_comma : List Text → Text
join_comma [] = []
join_comma (t ∷ ts) =
    let rest = join_comma ts in elim ts [ [] ↦ t | u ∷ us ↦ t ++ codes ", " ++ rest ]

abbrev static_event : String → String → String → String × EventDescription
static_event reference title description =
    (reference, record { title = codes title; description = codes description })

-- `str_other` is Python's `str` on values that are not texts, which the catalogue never shows for
-- the data that the use cases store.
module _ (str_other : EventValue → Text) where
  str : EventValue → Text
  str (string t) = t
  str null = str_other null
  str (strings ts) = str_other (strings ts)
  str (address a) = str_other (address a)

  -- `_text`
  text_of : Option Dict → String → Described
  unfolding item str
  text_of event_data key = do v ← item event_data key; ok (str v)

  join : EventValue → Text
  unfolding str join_comma
  join (strings ts) = join_comma ts
  join v = str v

  -- `_join_values`
  join_values : Option Dict → String → Described
  unfolding item join
  join_values event_data key = do v ← item event_data key; ok (join v)

  -- `_application_assessment`
  application_assessment : Option Dict → Described
  unfolding text_of lower format_enum
  application_assessment event_data = do
    merits_decision ← text_of event_data "merits_decision"
    let decision : Text = lower merits_decision
    let heading : Text = codes "Application " ++ decision
    let refused : Described = do
      reason ← text_of event_data "refusal_reason"
      justification ← text_of event_data "refusal_justification"
      ok (heading ++ codes "\n" ++ format_enum reason ++ codes "\n" ++ justification)
    if eq_text decision (codes "refused") then refused else ok heading

  -- The justification that `_claim_assessment` shows: a string that is not blank.
  shown_justification : Option Dict → Option Text
  unfolding item is_blank
  shown_justification event_data = elim (item event_data "decision_justification") [
    | ok (string t) ↦ if is_blank t then none else some t
    | _ ↦ none
  ]

  -- `_claim_assessment`
  claim_assessment : Option Dict → Described
  unfolding text_of lower format_enum shown_justification
  claim_assessment event_data = do
    type ← text_of event_data "claim_type"
    claim_decision ← text_of event_data "claim_decision"
    let claim_type : Text = format_enum type
    let decision : Text = lower (format_enum claim_decision)
    let referenced : Described = do
      reference ← text_of event_data "claim_reference"
      ok (claim_type ++ codes " claim " ++ decision ++ codes ": " ++ reference)
    elim (shown_justification event_data) [
      | none ↦ referenced
      | some justification ↦
          if eq_text decision (codes "rejected")
          then ok (claim_type ++ codes " claim " ++ decision ++ codes "\n" ++ justification)
          else referenced
    ]

  -- `_interested_parties`
  interested_parties : Option Dict → Described
  unfolding join_values
  interested_parties event_data = do
    old ← join_values event_data "old_public_bodies"
    new ← join_values event_data "new_public_bodies"
    ok (codes "Interested parties updated from " ++ old ++ codes " to " ++ new)

  -- `_claim_received`
  claim_received : Option Dict → Described
  unfolding text_of format_enum
  claim_received event_data = do
    type ← text_of event_data "claim_type"
    reference ← text_of event_data "claim_reference"
    ok (format_enum type ++ codes " claim received: " ++ reference)

  -- A description made of one item between two fixed texts.
  around : String → String → String → Option Dict → Described
  unfolding text_of
  around before key after event_data = do
    value ← text_of event_data key
    ok (codes before ++ value ++ codes after)

  -- `_DYNAMIC_EVENTS`
  unfoldable dynamic_events : List (String × (Text × (Option Dict → Described)))
  unfolding application_assessment claim_assessment interested_parties claim_received around
  dynamic_events =
      ("EVT-BUS-X-001", (codes "Case note added", around "Caseworker note added\n" "note_text" ""))
      ∷ ("EVT-BUS-APP-002", (codes "Application assessment complete", application_assessment))
      ∷ ("EVT-BUS-APP-004", (codes "Interested party updated", interested_parties))
      ∷ ("EVT-BUS-CLM-001", (codes "Claim submitted", claim_received))
      ∷ ("EVT-BUS-CLM-002", (codes "Claim assessment complete", claim_assessment))
      ∷ (
        "EVT-BUS-CLM-003",
        (codes "POA auto-approved", around "POA claim " "claim_reference" " auto-approved"),
      )
      ∷ (
        "EVT-BUS-CLM-004",
        (codes "POA auto-rejected", around "POA claim " "claim_reference" " auto-rejected"),
      )
      ∷ ("EVT-AUD-003", (codes "Report downloaded", around "" "report_name" " downloaded"))
      ∷ []

-- `_STATIC_EVENTS`
unfoldable static_events : List (String × EventDescription)
static_events =
    static_event "EVT-BUS-APP-001" "Application submitted" "Application received"
    ∷ static_event "EVT-BUS-APP-003" "Certificate created" "Certificate created"
    ∷ static_event "EVT-COM-APP-001" "Application submission confirmation"
        "Application submission confirmation sent"
    ∷ static_event "EVT-COM-APP-002" "Application granted (Email)" "Application granted email sent"
    ∷ static_event "EVT-COM-APP-003" "Application granted (Letter)"
        "Application granted letter sent"
    ∷ static_event "EVT-COM-APP-004" "Application refused" "Application refused email sent"
    ∷ static_event "EVT-COM-CLM-001" "Claim submission confirmation"
        "Claim submission confirmation sent"
    ∷ static_event "EVT-COM-CLM-002" "Claim approved" "Claim approved email sent"
    ∷ static_event "EVT-COM-CLM-003" "Claim Rejected" "Claim rejection email sent"
    ∷ static_event "EVT-AUD-001" "Application viewed" "Application viewed"
    ∷ static_event "EVT-AUD-002" "Certificate viewed" "Certificate viewed"
    ∷ []

-- `describe_event`
unfoldable pub describe_event :
    (EventValue → Text) → String → Option Dict → Result EventDescriptionError EventDescription
unfolding dynamic_events static_events lookup
describe_event str_other reference event_data = elim (lookup reference (dynamic_events str_other)) [
  | some (title, build) ↦ elim (build event_data) [
    | ok description ↦ ok (record { title = title; description = description })
    | err key ↦ err (invalid_event_data reference key)
  ]
  | none ↦ elim (lookup reference static_events) [
    | some d ↦ ok d
    | none ↦ err (unknown_event_reference reference)
  ]
]
