-- ===== src/PaymentExtract.antt =====
-- The payment lines of a claim: app/domain/payment_extract.py.
pub mod Lines
use laa_inquests_api.Prelude.{
  ℕ, suc, Bool, false, Option, none, some, List, [], ◌∷◌, ◌++◌, value_or, Result, ok, err,
  if◌then◌else◌,
}
use laa_inquests_api.Prelude.Int.{ℤ, pos, ◌-ℤ◌, neg_ℤ, ltb_ℤ}
use laa_inquests_api.Text.{Text, pad_3}
use laa_inquests_api.Calendar.{Date, Datetime}
use laa_inquests_api.Money.{
  bankers_round, as_fine, at_rate, profit_cost_payment_rate, profit_cost_payment_rate_with_vat,
}
use laa_inquests_api.Enums.{
  InvoiceTypeCode, TaxCode, poa, final_bill_fees, final_bill_disbursement, recouped, gb_vat_20,
  zero_vat, profit_cost,
}
use laa_inquests_api.Exceptions.{Exception, value_error}
use laa_inquests_api.PayInFull.{PayInFullClaim}
use laa_inquests_api.Records.{ClaimRow}

pub record PaymentExtractLine : Type 0 where
  pub sequence_number : ℕ
  pub invoice_number : Text
  pub invoice_amount : ℤ
  pub invoice_date : Date
  pub invoice_type : InvoiceTypeCode
  pub tax_code : TaxCode

-- `f"{claim_reference}_{sequence:03d}"`
unfoldable pub invoice_number_of : Text → ℕ → Text
invoice_number_of claim_reference sequence = claim_reference ++ (b'_' ∷ pad_3 sequence)

-- `amount is not None and amount > 0`
abbrev pub is_positive : Option ℤ → Bool
is_positive none = false
is_positive (some amount) = ltb_ℤ (pos 0) amount

line : Text → ℕ → ℤ → Date → InvoiceTypeCode → TaxCode → PaymentExtractLine
line claim_reference sequence amount date type tax = record {
  sequence_number = sequence;
  invoice_number = invoice_number_of claim_reference sequence;
  invoice_amount = amount;
  invoice_date = date;
  invoice_type = type;
  tax_code = tax;
}

unfoldable pub build_poa_profit_cost_extract :
    Text → ℕ → Datetime → Option ℤ → Option ℤ → Result Exception PaymentExtractLine
unfolding line
build_poa_profit_cost_extract reference sequence submission_date net (some amount) = ok (
    line reference sequence (bankers_round (at_rate profit_cost_payment_rate amount))
      submission_date.date poa zero_vat)
build_poa_profit_cost_extract reference sequence submission_date (some amount) none = ok (
    line reference sequence (bankers_round (at_rate profit_cost_payment_rate_with_vat amount))
      submission_date.date poa gb_vat_20)
build_poa_profit_cost_extract reference sequence submission_date none none = err value_error

-- The lines at 20% and at 0% VAT that `build_poa_disbursement_extract` and
-- `build_final_bill_disbursement_extract` build alike, each for its invoice type.
disbursement_lines :
    InvoiceTypeCode → Text → ℕ → Date → Option ℤ → Option ℤ → List PaymentExtractLine
unfolding line
disbursement_lines type reference sequence date gross vat_zero_amount =
    let vat_20_percent_amount : ℤ = value_or gross (pos 0) -ℤ value_or vat_zero_amount (pos 0) in
    let has_vat_20 : Bool = ltb_ℤ (pos 0) vat_20_percent_amount in
    (if has_vat_20
      then line reference sequence (bankers_round (as_fine vat_20_percent_amount)) date type
          gb_vat_20
        ∷ []
      else [])
    ++ (if is_positive vat_zero_amount
        then line reference (if has_vat_20 then suc sequence else sequence)
            (bankers_round (as_fine (value_or vat_zero_amount (pos 0)))) date type zero_vat
          ∷ []
        else [])

unfoldable pub build_poa_disbursement_extract :
    Text → Datetime → Option ℤ → Option ℤ → List PaymentExtractLine
unfolding disbursement_lines
build_poa_disbursement_extract reference submission_date gross vat_zero_amount =
    disbursement_lines poa reference 1 submission_date.date gross vat_zero_amount

unfoldable pub build_final_bill_fees_extract :
    Text → ℕ → Date → Option ℤ → Option ℤ → Option PaymentExtractLine
unfolding line
build_final_bill_fees_extract reference sequence invoice_date gross vat_zero_amount =
    if is_positive vat_zero_amount
    then some (
        line reference sequence (bankers_round (as_fine (value_or vat_zero_amount (pos 0))))
          invoice_date final_bill_fees zero_vat)
    else (if is_positive gross
        then some (
            line reference sequence (bankers_round (as_fine (value_or gross (pos 0)))) invoice_date
              final_bill_fees gb_vat_20)
        else none)

unfoldable pub build_final_bill_nil_fees_extract : Text → ℕ → Date → PaymentExtractLine
unfolding line
build_final_bill_nil_fees_extract reference sequence invoice_date =
    line reference sequence (pos 0) invoice_date final_bill_fees zero_vat

unfoldable pub build_final_bill_disbursement_extract :
    Text → ℕ → Date → Option ℤ → Option ℤ → List PaymentExtractLine
unfolding disbursement_lines
build_final_bill_disbursement_extract = disbursement_lines final_bill_disbursement

pub record RecoupmentSourceLine : Type 0 where
  pub invoice_number : Text
  pub invoice_amount : ℤ
  pub tax_code : TaxCode

-- `f"{invoice_number}-R"`
abbrev pub recoupment_number : Text → Text
recoupment_number invoice_number = invoice_number ++ (b'-' ∷ b'R' ∷ [])

unfoldable pub build_recoupment_extract :
    ℕ → Date → List RecoupmentSourceLine → List PaymentExtractLine
build_recoupment_extract start_sequence invoice_date [] = []
build_recoupment_extract start_sequence invoice_date (original ∷ originals) =
    record {
      sequence_number = start_sequence;
      invoice_number = recoupment_number original.invoice_number;
      invoice_amount = bankers_round (as_fine (neg_ℤ original.invoice_amount));
      invoice_date = invoice_date;
      invoice_type = recouped;
      tax_code = original.tax_code;
    }
    ∷ build_recoupment_extract (suc start_sequence) invoice_date originals

unfoldable pub poa_claim_payment_extract_lines :
    ClaimRow → PayInFullClaim → Result Exception (List PaymentExtractLine)
poa_claim_payment_extract_lines claim amounts = elim claim.poa_type_id [
  | some profit_cost ↦
      elim (build_poa_profit_cost_extract claim.claim_reference 1 claim.submission_date
        amounts.profit_cost_net amounts.profit_cost_vat_zero) [ ok l ↦ ok (l ∷ []) | err e ↦ err e ]
  | some _ ↦ ok (
      build_poa_disbursement_extract claim.claim_reference claim.submission_date
        amounts.disbursement_gross amounts.disbursement_vat_zero)
  | none ↦ ok []
]
