-- ===== src/Reports/CostLimitForecast.antt =====
-- The cost limit forecast: app/domain/cost_limit_forecast_report.py and the loop of
-- app/use_cases/generate_cost_limit_forecast_report.py.
pub mod Rows
use laa_inquests_api.Prelude.{
  ℕ, ◌+◌, ◌*◌, ◌≡◌, ◌≢◌, refl, Bool, Bool-cases, true, false, not, ◌&&◌, ◌||◌, Option, none, some,
  List, [], ◌∷◌, ◌++◌, map, select, any, all, All, String, Result, ok, err, is_ok, ◌>>=◌, ltb, leb,
  if◌then◌else◌, is_empty, arith, inl, inr, ◌==◌,
}
use text.Mathlib.Text as StringTests
use laa_inquests_api.Prelude.Int.{ℤ, pos, leb_ℤ, ◌≤ℤ◌, ◌+ℤ◌, ◌-ℤ◌, int_laws, -ℤ_parts, +ℤ_parts}
use laa_inquests_api.Text.{Text, codes}
use laa_inquests_api.Calendar.{Date, before}
use laa_inquests_api.Enums.{
  ClaimType, ClaimStatus, ClaimDecisionStatus, MeritsDecision, is_granted, is_final_bill,
  is_paid_in_full,
}
use laa_inquests_api.Money.{ApprovedClaimAmount, calculate_available_funds, payment_amount, total}

-- `InvalidCostLimitForecastRecordError`, and the `TypeError` of a `Decimal` of `None`.
pub data ForecastError : Type 0 where
  no_public_bodies_found : ℕ → ForecastError
  no_cost_limit : ForecastError

pub record ForecastClaim : Type 0 where
  pub claim_type : ClaimType
  pub status : ClaimStatus
  pub gross : Option ℤ
  pub vat_zero_total : Option ℤ

pub record CostLimitForecastCandidate : Type 0 where
  pub application_id : ℕ
  pub laa_reference : Text
  pub application_status : Option String
  pub merits_decision : MeritsDecision
  pub certificate_end_date : Option Date
  pub cost_limit : Option ℕ
  pub certificate_effective_date : Date
  pub claims : List ForecastClaim
  pub public_bodies : List Text

abbrev is_live_status : Option String → Bool
is_live_status none = false
is_live_status (some s) = StringTests.◌==◌ s "LIVE"

-- `end is None or end >= report_date`
abbrev lasts_until : Option Date → Date → Bool
lasts_until none report_date = true
lasts_until (some end) report_date = not (before end report_date)

unfoldable pub is_live : CostLimitForecastCandidate → Date → Bool
is_live c report_date =
    is_live_status c.application_status
    && is_granted c.merits_decision
    && lasts_until c.certificate_end_date report_date

unfoldable pub has_paid_final_bill : CostLimitForecastCandidate → Bool
has_paid_final_bill c =
    any (λ (claim : ForecastClaim). is_final_bill claim.claim_type && is_paid_in_full claim.status)
      c.claims

abbrev pub paid_amount : ForecastClaim → ApprovedClaimAmount
paid_amount claim = record {
  decision = some ClaimDecisionStatus.pay_in_full;
  gross = claim.gross;
  vat_zero_total = claim.vat_zero_total;
}

abbrev pub is_paid : ForecastClaim → Bool
is_paid claim = is_paid_in_full claim.status

unfoldable pub remaining_cost_limit : CostLimitForecastCandidate → ℤ
remaining_cost_limit c =
    calculate_available_funds c.cost_limit (map paid_amount (select is_paid c.claims))

-- Texts by their code points, as Python orders them.
leb_text : Text → Text → Bool
leb_text [] t = true
leb_text (c ∷ s) [] = false
leb_text (c ∷ s) (d ∷ t) = let rest = leb_text s t in ltb c d || ((c == d) && rest)

insert_text : Text → List Text → List Text
unfolding leb_text
insert_text t [] = t ∷ []
insert_text t (u ∷ us) =
    let rest = insert_text t us in if leb_text t u then t ∷ u ∷ us else u ∷ rest

-- `sorted(...)`
unfoldable pub sorted : List Text → List Text
unfolding insert_text
sorted [] = []
sorted (t ∷ ts) = insert_text t (sorted ts)

-- `PUBLIC_BODY_DELIMITER.join(...)`
unfoldable pub join_bodies : List Text → Text
join_bodies [] = []
join_bodies (t ∷ ts) =
    let rest = join_bodies ts in elim ts [ [] ↦ t | u ∷ us ↦ t ++ codes "; " ++ rest ]

-- The cells of a row: the limit is in pounds, and what remains of it in pence.
pub record ForecastRow : Type 0 where
  pub laa_reference : Text
  pub public_bodies : Text
  pub cost_limit : ℕ
  pub remaining : ℤ
  pub certificate_effective_date : Date

unfoldable pub row_of : CostLimitForecastCandidate → ℕ → ForecastRow
unfolding sorted join_bodies remaining_cost_limit
row_of c limit = record {
  laa_reference = c.laa_reference;
  public_bodies = join_bodies (sorted c.public_bodies);
  cost_limit = limit;
  remaining = remaining_cost_limit c;
  certificate_effective_date = c.certificate_effective_date;
}

-- The row of a certificate that is part of the forecast.
unfoldable pub complete_row : CostLimitForecastCandidate → Result ForecastError (Option ForecastRow)
unfolding row_of
complete_row c =
    if is_empty c.public_bodies
    then err (no_public_bodies_found c.application_id)
    else elim c.cost_limit [ none ↦ err no_cost_limit | some limit ↦ ok (some (row_of c limit)) ]

unfoldable pub build_cost_limit_forecast_row :
    CostLimitForecastCandidate → Date → Result ForecastError (Option ForecastRow)
unfolding is_live has_paid_final_bill remaining_cost_limit complete_row
build_cost_limit_forecast_row c report_date =
    if not (is_live c report_date) || has_paid_final_bill c
    then ok none
    else (if leb_ℤ (remaining_cost_limit c) (pos 0) then ok none else complete_row c)

abbrev pub with_row : Option ForecastRow → List ForecastRow → List ForecastRow
with_row none rows = rows
with_row (some row) rows = row ∷ rows

-- The loop of `execute`, whose failure is the report's.
unfoldable pub generate_rows :
    List CostLimitForecastCandidate → Date → Result ForecastError (List ForecastRow)
unfolding build_cost_limit_forecast_row
generate_rows [] report_date = ok []
generate_rows (c ∷ cs) report_date = do
  row ← build_cost_limit_forecast_row c report_date
  rows ← generate_rows cs report_date
  ok (with_row row rows)
