-- ===== src/PaymentExtract/Lines.antt =====
-- The amounts and the numbering of payment lines (app/domain/payment_extract.py).
use laa_inquests_api.Prelude.{
  ℕ, suc, ◌+◌, ◌≡◌, refl, ap, some, none, value_or, Option, true, false, Bool-cases, ◌⊎◌, inl, inr,
  List, [], ◌∷◌, ◌++◌, map, length, arith,
}
use native.Mathlib.Nat.{add-zero, add-suc, suc-add}
use laa_inquests_api.Prelude.Int.{
  ℤ, pos, ◌+ℤ◌, ◌-ℤ◌, neg_ℤ, ◌≤ℤ◌, int_laws, ltb_ℤ, -ℤ_parts, +ℤ_parts, +ℤ_zero, eq_of_parts,
}
use laa_inquests_api.Text.{Text}
use laa_inquests_api.Calendar.{Date, Datetime}
use laa_inquests_api.Money.{total}
use laa_inquests_api.Money.Rounding.{bankers_round-as_fine}
use laa_inquests_api.PaymentExtract.{
  PaymentExtractLine, RecoupmentSourceLine, build_poa_disbursement_extract,
  build_final_bill_disbursement_extract, build_recoupment_extract, disbursement_lines, is_positive,
}
use laa_inquests_api.Enums.{InvoiceTypeCode, poa, final_bill_disbursement}

abbrev pub amount_of : PaymentExtractLine → ℤ
amount_of l = l.invoice_amount

-- The sum of the lines' amounts.
abbrev pub lines_total : List PaymentExtractLine → ℤ
lines_total ls = total (map amount_of ls)

-- The lines are numbered in a row from the given number.
abbrev pub NumberedFrom : ℕ → List PaymentExtractLine → Type 0
NumberedFrom n [] = Unit
NumberedFrom n (l ∷ ls) = (l.sequence_number ≡ n) × NumberedFrom (suc n) ls

pub NumberedFrom-append :
    (n : ℕ) (xs ys : List PaymentExtractLine)
    → NumberedFrom n xs
    → NumberedFrom (n + length xs) ys
    → NumberedFrom n (xs ++ ys)
NumberedFrom-append n [] ys h k = rw (add-zero) at k
NumberedFrom-append n (x ∷ xs) ys h k =
    (h.0, NumberedFrom-append (suc n) xs ys h.1 (rw (add-suc, ← suc-add) at k))

disbursement_lines_total :
    (type : InvoiceTypeCode) (reference : Text) (n : ℕ) (date : Date) (gross : ℤ)
    (vat_zero : Option ℤ)
    → pos 0 ≤ℤ value_or vat_zero (pos 0)
    → value_or vat_zero (pos 0) ≤ℤ gross
    → lines_total (disbursement_lines type reference n date (some gross) vat_zero) ≡ gross
unfolding disbursement_lines total
disbursement_lines_total type reference n date gross none h k = ground (
  arith,
  bankers_round-as_fine (gross -ℤ pos 0),
  -ℤ_parts gross (pos 0),
  +ℤ_zero (gross -ℤ pos 0),
  eq_of_parts (gross -ℤ pos 0) gross,
  eq_of_parts (pos 0) gross,
)
disbursement_lines_total type reference n date gross (some v) h k = ground (
  arith,
  bankers_round-as_fine (gross -ℤ v),
  bankers_round-as_fine v,
  -ℤ_parts gross v,
  +ℤ_zero (gross -ℤ v),
  +ℤ_zero v,
  +ℤ_parts (gross -ℤ v) v,
  eq_of_parts (gross -ℤ v) gross,
  eq_of_parts (gross -ℤ v +ℤ v) gross,
  eq_of_parts v gross,
  eq_of_parts (pos 0) gross,
)

disbursement_lines-NumberedFrom :
    (type : InvoiceTypeCode) (reference : Text) (n : ℕ) (date : Date) (gross vat_zero : Option ℤ)
    → NumberedFrom n (disbursement_lines type reference n date gross vat_zero)
unfolding disbursement_lines
disbursement_lines-NumberedFrom type reference n date gross vat_zero =
    split (Bool-cases (is_positive vat_zero))
  where
    vat_20 : ℤ
    vat_20 = value_or gross (pos 0) -ℤ value_or vat_zero (pos 0)

    split :
        (is_positive vat_zero ≡ true) ⊎ (is_positive vat_zero ≡ false)
        → NumberedFrom n (disbursement_lines type reference n date gross vat_zero)
    split (inl z) = elim (Bool-cases (ltb_ℤ (pos 0) vat_20)) [
      | inl s ↦ rw (z, s) (refl, (refl, tt))
      | inr s ↦ rw (z, s) (refl, tt)
    ]
    split (inr z) = elim (Bool-cases (ltb_ℤ (pos 0) vat_20)) [
      | inl s ↦ rw (z, s) (refl, tt)
      | inr s ↦ rw (z, s) tt
    ]

-- The lines of a payment on account for disbursements add up to the gross amount and are numbered
-- in a row from 1, where the part at 0% VAT is not negative and no more than the gross.
pub build_poa_disbursement_extract_total :
    (reference : Text) (submission_date : Datetime) (gross : ℤ) (vat_zero : Option ℤ)
    → pos 0 ≤ℤ value_or vat_zero (pos 0)
    → value_or vat_zero (pos 0) ≤ℤ gross
    → let lines : List PaymentExtractLine =
        build_poa_disbursement_extract reference submission_date (some gross) vat_zero in
      (lines_total lines ≡ gross) × NumberedFrom 1 lines
unfolding build_poa_disbursement_extract
build_poa_disbursement_extract_total reference submission_date gross vat_zero h k = (
  disbursement_lines_total poa reference 1 submission_date.date gross vat_zero h k,
  disbursement_lines-NumberedFrom poa reference 1 submission_date.date (some gross) vat_zero,
)

-- The disbursement lines of a final bill are numbered in a row from their start.
pub build_final_bill_disbursement_extract-NumberedFrom :
    (reference : Text) (n : ℕ) (date : Date) (gross vat_zero : Option ℤ)
    → NumberedFrom n (build_final_bill_disbursement_extract reference n date gross vat_zero)
unfolding build_final_bill_disbursement_extract
build_final_bill_disbursement_extract-NumberedFrom =
    disbursement_lines-NumberedFrom final_bill_disbursement

-- The disbursement lines of a final bill add up to the gross amount where the part at 0% VAT is
-- not negative and no more than the gross.
pub build_final_bill_disbursement_extract_total :
    (reference : Text) (n : ℕ) (date : Date) (gross : ℤ) (vat_zero : Option ℤ)
    → pos 0 ≤ℤ value_or vat_zero (pos 0)
    → value_or vat_zero (pos 0) ≤ℤ gross
    → lines_total (build_final_bill_disbursement_extract reference n date (some gross) vat_zero)
      ≡ gross
unfolding build_final_bill_disbursement_extract
build_final_bill_disbursement_extract_total = disbursement_lines_total final_bill_disbursement

-- The sum of the amounts that are recouped.
abbrev pub sources_total : List RecoupmentSourceLine → ℤ
sources_total os = total (map (λ (o : RecoupmentSourceLine). o.invoice_amount) os)

-- Recoupment lines take back exactly what was paid: they add up to the negated sum of the
-- original lines; and they are numbered in a row from the start.
pub build_recoupment_extract_lem :
    (n : ℕ) (date : Date) (os : List RecoupmentSourceLine)
    → (lines_total (build_recoupment_extract n date os) ≡ neg_ℤ (sources_total os))
      × NumberedFrom n (build_recoupment_extract n date os)
      × (length (build_recoupment_extract n date os) ≡ length os)
unfolding build_recoupment_extract total
build_recoupment_extract_lem n date [] = (omega int_laws, tt, refl)
build_recoupment_extract_lem n date (o ∷ os) =
    let (t, r, l) = build_recoupment_extract_lem (suc n) date os in
    (rw (bankers_round-as_fine, t) (omega int_laws), (refl, r), ap suc l)
