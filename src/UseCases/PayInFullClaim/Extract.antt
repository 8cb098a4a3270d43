-- ===== src/UseCases/PayInFullClaim/Extract.antt =====
-- The payment extract of a decision to pay a claim in full: `_create_payment_extract` of
-- app/use_cases/pay_in_full_claim.py and the methods that it calls.
use laa_inquests_api.Prelude.{
  ℕ, ◌+◌, Bool, not, ◌&&◌, none, some, List, [], ◌∷◌, ◌++◌, map, select, length, ◌==◌,
  if◌then◌else◌,
}
use laa_inquests_api.Calendar.{Date, Datetime}
use laa_inquests_api.Enums.{is_payment_on_account, is_paid_in_full}
use laa_inquests_api.Application.{Application}
use laa_inquests_api.PayInFull.{PayInFullClaim, has_nil_amounts}
use laa_inquests_api.PaymentExtract.{
  PaymentExtractLine, RecoupmentSourceLine, build_final_bill_nil_fees_extract,
  build_final_bill_fees_extract, build_final_bill_disbursement_extract, build_recoupment_extract,
  poa_claim_payment_extract_lines,
}
use laa_inquests_api.Records.{ClaimRow, ClaimPaymentExtract}
use laa_inquests_api.Store.Actions.{Action, pure, ◌>>=◌}
use laa_inquests_api.Store.Repository.{
  get_claims_by_application_id, get_payment_extracts_by_claim_id, create_payment_extract,
}

-- Which of the use case's optional ports are given.
pub record ExtractPorts : Type 0 where
  pub get_claims_for_application : Bool
  pub create_payment_extract_port : Bool

-- `_final_or_nil_bill_payment_extract_lines`
unfoldable pub final_or_nil_bill_payment_extract_lines :
    ClaimRow → PayInFullClaim → List PaymentExtractLine
final_or_nil_bill_payment_extract_lines claim d =
    let date : Date = claim.submission_date.date in
    if has_nil_amounts d
    then build_final_bill_nil_fees_extract claim.claim_reference 1 date ∷ []
    else elim (build_final_bill_fees_extract claim.claim_reference 1 date d.profit_cost_gross
        d.profit_cost_vat_zero) [
          | some fees_line ↦
              fees_line
              ∷ build_final_bill_disbursement_extract claim.claim_reference 2 date
                  d.disbursement_gross d.disbursement_vat_zero
          | none ↦
              build_final_bill_disbursement_extract claim.claim_reference 1 date
                d.disbursement_gross d.disbursement_vat_zero
        ]

-- The filter of `_recoupable_poa_claims`.
unfoldable pub is_recoupable : ℕ → ClaimRow → Bool
is_recoupable current_claim_id c =
    not (c.claim_id == current_claim_id)
    && is_payment_on_account c.claim_type_id
    && is_paid_in_full c.status_id

-- `_recoupable_poa_claims`
unfoldable pub recoupable_poa_claims : ExtractPorts → ℕ → ℕ → Action (List ClaimRow)
recoupable_poa_claims ports application current_claim_id =
    if ports.get_claims_for_application
    then (get_claims_by_application_id application >>= λ claims.
        pure (select (is_recoupable current_claim_id) claims))
    else pure []

source_of : ClaimPaymentExtract → RecoupmentSourceLine
source_of e = record {
  invoice_number = e.invoice_number;
  invoice_amount = e.invoice_amount;
  tax_code = e.tax_code;
}

-- The loop of `_recoupment_lines`.
unfoldable pub recoup_each : Date → ℕ → List ClaimRow → Action (List PaymentExtractLine)
unfolding source_of
recoup_each date sequence [] = pure []
recoup_each date sequence (poa_claim ∷ poa_claims) = do
  extracts ← get_payment_extracts_by_claim_id poa_claim.claim_id
  let lines : List PaymentExtractLine =
      build_recoupment_extract sequence date (map source_of extracts)
  rest ← recoup_each date (sequence + length lines) poa_claims
  pure (lines ++ rest)

-- The lines that `_create_payment_extract` collects, with those of `_recoupment_lines`.
unfoldable pub payment_lines :
    ExtractPorts
    → Application
    → ClaimRow
    → PayInFullClaim
    → Datetime
    → Action (List PaymentExtractLine)
payment_lines ports a claim d decided =
    if is_payment_on_account claim.claim_type_id
    then (λ env s. (poa_claim_payment_extract_lines claim d, s))
    else (do
      let lines : List PaymentExtractLine = final_or_nil_bill_payment_extract_lines claim d
      poa_claims ← recoupable_poa_claims ports a.application_id claim.claim_id
      recouped_lines ← recoup_each decided.date (length lines + 1) poa_claims
      pure (lines ++ recouped_lines))

-- `_create_payment_extract`; with no lines the write makes no call.
unfoldable pub create_extract :
    ExtractPorts → Application → ClaimRow → PayInFullClaim → Datetime → Action (Unit {0})
create_extract ports a claim d decided =
    if ports.create_payment_extract_port
    then (payment_lines ports a claim d decided >>= λ lines.
        create_payment_extract claim.claim_id lines)
    else pure tt
