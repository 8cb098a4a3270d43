-- ===== src/Tests/Payments.antt =====
-- The theorems on amounts of money and on payment lines, at concrete data.
use laa_inquests_api.Prelude.{
  ◌+◌, ◌%◌, ◌<◌, ◌≡◌, ◌↔◌, ◌⊎◌, refl, none, some, [], ◌∷◌, List, length, ok, arith,
}
use laa_inquests_api.Prelude.Int.{ℤ, pos, negsuc, pos_part, neg_part, neg_ℤ}
use laa_inquests_api.Enums.{nil_bill, zero_vat, gb_vat_20}
use laa_inquests_api.Money.{bankers_round, at_rate, as_fine}
use laa_inquests_api.Money.Rounding.{distance, bankers_round_lem, bankers_round-as_fine}
use laa_inquests_api.PayInFull.{PayInFullClaim, validate}
use laa_inquests_api.PayInFull.Laws.{nil_bill_no_amounts}
use laa_inquests_api.PaymentExtract.{
  PaymentExtractLine, RecoupmentSourceLine, build_poa_disbursement_extract,
  build_final_bill_disbursement_extract, build_recoupment_extract,
}
use laa_inquests_api.PaymentExtract.Lines.{
  NumberedFrom, lines_total, sources_total, build_poa_disbursement_extract_total,
  build_final_bill_disbursement_extract-NumberedFrom, build_final_bill_disbursement_extract_total,
  build_recoupment_extract_lem,
}
use laa_inquests_api.Tests.Data.{june_first, claim_reference}

-- 12.5 pence are rounded to 12.
bankers_round_lem_example :
    let r : ℤ = bankers_round (pos 1250) in
    (distance (at_rate 100 r) (pos 1250) < 50)
    ⊎ ((distance (at_rate 100 r) (pos 1250) ≡ 50) × ((pos_part r + neg_part r) % 2 ≡ 0))
bankers_round_lem_example = bankers_round_lem (pos 1250)

bankers_round_whole_example : bankers_round (as_fine (negsuc 41)) ≡ negsuc 41
bankers_round_whole_example = bankers_round-as_fine (negsuc 41)

abbrev nothing : PayInFullClaim
nothing = record {
  claim_type_id = nil_bill;
  poa_type_id = none;
  profit_cost_net = none;
  profit_cost_gross = none;
  profit_cost_vat_zero = none;
  disbursement_net = none;
  disbursement_gross = none;
  disbursement_vat_zero = none;
}

nil_bill_no_amounts_example : (validate nothing ≡ ok tt) ↔ (
    (nothing.profit_cost_net ≡ none)
    × (nothing.profit_cost_gross ≡ none)
    × (nothing.profit_cost_vat_zero ≡ none)
    × (nothing.disbursement_net ≡ none)
    × (nothing.disbursement_gross ≡ none)
    × (nothing.disbursement_vat_zero ≡ none))
nil_bill_no_amounts_example = nil_bill_no_amounts nothing refl

build_poa_disbursement_extract_total_example :
    let lines : List PaymentExtractLine =
      build_poa_disbursement_extract claim_reference june_first
        (some (pos 15000))
        (some (pos 3000)) in
    (lines_total lines ≡ pos 15000) × NumberedFrom 1 lines
build_poa_disbursement_extract_total_example =
    build_poa_disbursement_extract_total claim_reference june_first (pos 15000) (some (pos 3000))
      (omega arith) (omega arith)

disbursement_NumberedFrom_example : NumberedFrom 2 (
    build_final_bill_disbursement_extract claim_reference 2 june_first.date
      (some (pos 15000))
      (some (pos 3000)))
disbursement_NumberedFrom_example =
    build_final_bill_disbursement_extract-NumberedFrom claim_reference 2 june_first.date
      (some (pos 15000)) (some (pos 3000))

build_final_bill_disbursement_extract_total_example :
    lines_total (
      build_final_bill_disbursement_extract claim_reference 2 june_first.date
        (some (pos 15000))
        (some (pos 3000)))
    ≡ pos 15000
build_final_bill_disbursement_extract_total_example =
    build_final_bill_disbursement_extract_total claim_reference 2 june_first.date (pos 15000)
      (some (pos 3000)) (omega arith) (omega arith)

abbrev paid : List RecoupmentSourceLine
paid =
    record { invoice_number = claim_reference; invoice_amount = pos 9600; tax_code = gb_vat_20 }
    ∷ record { invoice_number = claim_reference; invoice_amount = pos 800; tax_code = zero_vat }
    ∷ []

build_recoupment_extract_lem_example :
    (lines_total (build_recoupment_extract 3 june_first.date paid) ≡ neg_ℤ (sources_total paid))
    × NumberedFrom 3 (build_recoupment_extract 3 june_first.date paid)
    × (length (build_recoupment_extract 3 june_first.date paid) ≡ length paid)
build_recoupment_extract_lem_example = build_recoupment_extract_lem 3 june_first.date paid
