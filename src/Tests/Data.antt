-- ===== src/Tests/Data.antt =====
-- The concrete data of the tests.
use laa_inquests_api.Prelude.{ℕ, suc, ◌+◌, ◌≤◌, arith, false, true, none, some, List, [], ◌∷◌}
use laa_inquests_api.Prelude.Int.{pos}
use laa_inquests_api.Text.{Text, codes}
use laa_inquests_api.Calendar.{Date, Datetime}
use laa_inquests_api.Enums.{
  ClaimStatus, payment_on_account, final_bill, profit_cost, expert_cost, suicide, two, granted,
  use_specified_address, person,
}
use laa_inquests_api.Application.{Application, ApplicationProceeding}
use laa_inquests_api.Claim.{Claim}
use laa_inquests_api.Records.{ClaimRow}
use laa_inquests_api.Store.{Db, Session, Env}
use laa_inquests_api.UseCases.CreateClaim.Rows.{Fresh}
use laa_inquests_api.UseCases.CreateClaim.Writes.{GivesFreshIds}

abbrev pub leap_day : Date
leap_day = record { year = 2024; month = 2; day = 29 }

abbrev pub june_first : Datetime
june_first = record {
  date = record { year = 2026; month = 6; day = 1 };
  micros = 0;
  utc_offset = some (pos 0);
}

-- A payment on account for a profit cost of £100.00, £120.00 with VAT.
abbrev pub profit_cost_claim : Claim
profit_cost_claim = record {
  claim_type = payment_on_account;
  poa_type = some profit_cost;
  net = some (pos 10000);
  gross = some (pos 12000);
  vat_zero_total = none;
  inquest_outcomes = [];
  cost_template_file_id = none;
  cost_template_file_name = none;
  has_counsel_been_paid = none;
  has_alternative_funding = none;
  has_recovery_costs_awarded = none;
  financial_recovery_previous_pre_certificate_costs = none;
  financial_recovery_cost = none;
  financial_recovery_damages = none;
  financial_recovery_interest = none;
  paying_party = none;
  number_of_counsel_instructed = none;
}

-- An expert's bill of £100.00, with nothing for VAT.
abbrev pub expert_claim : Claim
expert_claim = record profit_cost_claim {
  poa_type = some expert_cost;
  gross = some (pos 10000);
  vat_zero_total = some (pos 0);
}

abbrev pub bill : Claim
bill = record {
  claim_type = final_bill;
  poa_type = none;
  net = none;
  gross = some (pos 500000);
  vat_zero_total = none;
  inquest_outcomes = suicide ∷ [];
  cost_template_file_id = some 7;
  cost_template_file_name = some "costs.xlsx";
  has_counsel_been_paid = some true;
  has_alternative_funding = some false;
  has_recovery_costs_awarded = some false;
  financial_recovery_previous_pre_certificate_costs = some (pos 0);
  financial_recovery_cost = some (pos 0);
  financial_recovery_damages = some (pos 0);
  financial_recovery_interest = some (pos 0);
  paying_party = some "none";
  number_of_counsel_instructed = some two;
}

abbrev pub proceeding : ApplicationProceeding
proceeding = record {
  merits_decision = granted;
  reason_for_refusal = none;
  justification = none;
  proceeding_cost_limitation = some 25000;
  substantive_cost_limitation_effective_date = none;
  certificate_issue_date = none;
  certificate_start_date = some (record { year = 2026; month = 1; day = 15 });
  certificate_end_date = none;
}

abbrev pub case : Application
case = record {
  application_id = 5;
  laa_reference = b'I' ∷ b'1' ∷ [];
  status = none;
  created_at = june_first;
  provider = record {
    firm_code = b'F' ∷ [];
    office_id = b'O' ∷ [];
    email_address = b'p' ∷ b'@' ∷ b'f' ∷ [];
  };
  client = record {
    correspondence_address_source = use_specified_address;
    correspondence_address = some (record {
      address_line_1 = codes "1 High Street";
      address_line_2 = none;
      town_or_city = codes "Leeds";
      county = none;
      postcode = codes "LS1";
    });
    home_address = none;
    correspondence_recipient_type = some person;
    correspondence_recipient_name = some (codes "Ann");
  };
  deceased = record {
    deceased_first_name = codes "John";
    deceased_last_name = codes "Smith";
    deceased_date_of_birth = codes "1950-01-01";
    deceased_date_of_death = codes "2025-01-01";
    coroners_reference = codes "C1";
  };
  public_bodies = codes "Home Office" ∷ [];
  proceeding = proceeding;
}

abbrev pub claim_reference : Text
claim_reference = b'I' ∷ b'N' ∷ b'Q' ∷ b'C' ∷ b'1' ∷ []

-- The profit cost claim, as it stands in the table before its assessment.
abbrev pub submitted_row : ClaimRow
submitted_row = record {
  claim_id = 1;
  application_id = 5;
  claim_reference = claim_reference;
  claim_type_id = payment_on_account;
  status_id = ClaimStatus.submitted;
  submission_date = june_first;
  total_profit_cost_net = some (pos 10000);
  total_profit_cost_gross = some (pos 12000);
  total_profit_cost_vat_zero = none;
  total_funds_remaining_after_claim = pos 2488000;
  claimant_id = some (b'c' ∷ []);
  poa_type_id = some profit_cost;
  has_counsel_been_paid = none;
  has_alternative_funding = none;
  has_recovery_costs_awarded = none;
  financial_recovery_previous_pre_certificate_costs = none;
  financial_recovery_cost = none;
  financial_recovery_damages = none;
  financial_recovery_interest = none;
  paying_party = none;
  number_of_counsel_instructed = none;
}

abbrev pub tables : Db
tables = record {
  applications = case ∷ [];
  claims = submitted_row ∷ [];
  templates = [];
  outcomes = [];
  decisions = [];
  reasons = [];
  amounts = [];
  extracts = [];
  evidence = [];
  history = [];
  duplicates = [];
}

abbrev pub start : Session
start = record { committed = tables; working = tables; calls = 0; draws = 0; sent = [] }

-- A key beyond those of the claims.
abbrev next_id : List ClaimRow → ℕ
next_id [] = 1
next_id (c ∷ cs) = suc (c.claim_id + next_id cs)

-- A run in which no call fails.
abbrev pub calm : Env
calm = record {
  fails = λ _. false;
  now = june_first;
  user_name = some (b'A' ∷ []);
  user_object_id = none;
  user_email_address = none;
  new_application_id = λ _. 9;
  new_claim_id = λ (db : Db). next_id db.claims;
  new_decision_id = λ _. 1;
  random_chars = λ _. b'A' ∷ b'B' ∷ b'C' ∷ b'D' ∷ [];
  banned_words = [];
}

next_id-Fresh : (n : ℕ) (cs : List ClaimRow) → next_id cs ≤ n → Fresh n cs
next_id-Fresh n [] h = tt
next_id-Fresh n (c ∷ cs) h = (λ e. absurd (omega arith), next_id-Fresh n cs (omega arith))

pub calm-GivesFreshIds : GivesFreshIds calm
calm-GivesFreshIds db = next_id-Fresh (next_id db.claims) db.claims (omega arith)
