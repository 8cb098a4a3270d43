-- ===== src/Reports/CostLimitForecast/Rows.antt =====
-- The rows of the cost limit forecast (app/domain/cost_limit_forecast_report.py).
use laa_inquests_api.Prelude.{
  ◌≡◌, ap, sym, ◌∙◌, ◌↔◌, Bool, Bool-cases, true, false, not, ◌&&◌, Option, none, List, [], ◌∷◌,
  map, select, All, ok, err, bind_ok, ok_same, is_empty, arith, inl, inr, if◌then◌else◌, value_or,
}
use laa_inquests_api.Prelude.Int.{ℤ, pos, leb_ℤ, ◌≤ℤ◌, ◌+ℤ◌, ◌-ℤ◌, int_laws}
use laa_inquests_api.Calendar.{Date}
use laa_inquests_api.Money.{calculate_available_funds, payment_amount, total, is_approved}
use laa_inquests_api.Reports.CostLimitForecast.{
  ForecastClaim, CostLimitForecastCandidate, ForecastError, no_public_bodies_found, ForecastRow,
  is_live, has_paid_final_bill, remaining_cost_limit, paid_amount, is_paid, row_of, complete_row,
  build_cost_limit_forecast_row, generate_rows, with_row,
}

-- The certificate is part of the forecast: it is live, no final bill is paid, and some of its limit
-- remains.
abbrev pub is_included : Date → CostLimitForecastCandidate → Bool
is_included report_date c =
    is_live c report_date
    && not (has_paid_final_bill c)
    && not (leb_ℤ (remaining_cost_limit c) (pos 0))

-- No claim is for a negative amount.
abbrev pub HasAmounts : CostLimitForecastCandidate → Type 0
HasAmounts c = All (λ (claim : ForecastClaim). pos 0 ≤ℤ payment_amount (paid_amount claim)) c.claims

add_nonneg : (a b : ℤ) → pos 0 ≤ℤ a → pos 0 ≤ℤ b → pos 0 ≤ℤ a +ℤ b
add_nonneg a b h k = omega int_laws

approved_total-nonneg :
    (claims : List ForecastClaim)
    → All (λ (claim : ForecastClaim). pos 0 ≤ℤ payment_amount (paid_amount claim)) claims
    → pos 0
      ≤ℤ total (map payment_amount (select is_approved (map paid_amount (select is_paid claims))))
unfolding total is_approved
approved_total-nonneg [] h = omega arith
approved_total-nonneg (claim ∷ claims) h = elim (Bool-cases (is_paid claim)) [
  | inl e ↦
      rw (e)
        (add_nonneg (payment_amount (paid_amount claim)) _ h.0 (approved_total-nonneg claims h.1))
  | inr e ↦ rw (e) (approved_total-nonneg claims h.1)
]

nothing_left : (a : ℤ) → pos 0 ≤ℤ a → leb_ℤ (pos 0 -ℤ a) (pos 0) ≡ true
unfolding ◌-ℤ◌
nothing_left a h = ground arith

no_limit-nothing_remains :
    (c : CostLimitForecastCandidate)
    → HasAmounts c
    → c.cost_limit ≡ none
    → leb_ℤ (remaining_cost_limit c) (pos 0) ≡ true
unfolding remaining_cost_limit calculate_available_funds
no_limit-nothing_remains c h e = rw (e) (nothing_left _ (approved_total-nonneg c.claims h))

-- For a certificate without a claim for a negative amount, building the row fails exactly when the
-- certificate is part of the forecast and has no public body, and then says so: a missing cost limit
-- is never the reason.
pub build_cost_limit_forecast_row-err :
    (c : CostLimitForecastCandidate) (report_date : Date) (e : ForecastError)
    → HasAmounts c
    → (build_cost_limit_forecast_row c report_date ≡ err e) ↔ (
        (is_included report_date c ≡ true)
        × (is_empty c.public_bodies ≡ true)
        × (e ≡ no_public_bodies_found c.application_id))
unfolding build_cost_limit_forecast_row complete_row
build_cost_limit_forecast_row-err c report_date e h = ground (arith, no_limit-nothing_remains c h)

-- The row of a certificate, with its own cost limit.
abbrev pub own_row : CostLimitForecastCandidate → ForecastRow
own_row c = row_of c (value_or c.cost_limit 0)

row_included :
    (c : CostLimitForecastCandidate) (report_date : Date) (row : Option ForecastRow)
    (rows : List ForecastRow)
    → build_cost_limit_forecast_row c report_date ≡ ok row
    → with_row row rows ≡ (if is_included report_date c then own_row c ∷ rows else rows)
unfolding build_cost_limit_forecast_row complete_row
row_included c report_date row rows h = ground arith

map_if :
    {A B : Type 0} (f : A → B) (test : Bool) (x : A) (xs : List A) {ys : List B}
    → ys ≡ map f xs
    → (if test then f x ∷ ys else ys) ≡ map f (if test then x ∷ xs else xs)
map_if f true x xs e = ap (λ zs. f x ∷ zs) e
map_if f false x xs e = e

-- A report that is generated lists exactly the certificates that are part of the forecast, in their
-- order, each with its own cost limit and what remains of it.
pub generate_rows_lem :
    (cs : List CostLimitForecastCandidate) (report_date : Date) (rows : List ForecastRow)
    → generate_rows cs report_date ≡ ok rows
    → rows ≡ map own_row (select (is_included report_date) cs)
unfolding generate_rows
generate_rows_lem [] report_date rows h = sym (ok_same [] rows h)
generate_rows_lem (c ∷ cs) report_date rows h =
    let (row, hr, k) = bind_ok (build_cost_limit_forecast_row c report_date) _ rows h in
    let (rest, hs, l) = bind_ok (generate_rows cs report_date) _ rows k in
    sym (ok_same (with_row row rest) rows l)
    ∙ row_included c report_date row rest hr
    ∙ map_if own_row (is_included report_date c) c _ (generate_rows_lem cs report_date rest hs)
