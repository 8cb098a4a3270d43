-- ===== src/UseCases/PayInFullClaim/Numbering.antt =====
-- The numbering of the payment lines of a bill that is paid in full.
use laa_inquests_api.Prelude.{
  ℕ, ◌+◌, false, ◌≡◌, refl, subst, arith, List, [], ◌∷◌, Bool-cases, inl, inr,
}
use laa_inquests_api.Calendar.{Date, Datetime}
use laa_inquests_api.Enums.{is_payment_on_account}
use laa_inquests_api.Application.{Application}
use laa_inquests_api.PayInFull.{PayInFullClaim, has_nil_amounts}
use laa_inquests_api.PaymentExtract.{
  PaymentExtractLine, is_positive, build_final_bill_fees_extract, build_final_bill_nil_fees_extract,
  build_final_bill_disbursement_extract,
}
use laa_inquests_api.PaymentExtract.Lines.{
  NumberedFrom, NumberedFrom-append, build_recoupment_extract_lem,
  build_final_bill_disbursement_extract-NumberedFrom,
}
use laa_inquests_api.Records.{ClaimRow, ClaimDecision}
use laa_inquests_api.Store.{Db, Session, Env}
use laa_inquests_api.Store.Actions.{Action}
use laa_inquests_api.Store.Repository.{get_payment_extracts_by_claim_id}
use laa_inquests_api.Store.Triples.{
  At, Outcome, Runs, Runs-bind, Runs-pure, Runs-given, Runs-weaken,
}
use laa_inquests_api.Store.Writes.{Keeps-query}
use laa_inquests_api.UseCases.PayInFullClaim.Extract.{
  ExtractPorts, final_or_nil_bill_payment_extract_lines, recoup_each, payment_lines,
}
use laa_inquests_api.UseCases.PayInFullClaim.Outcome.{Keeps-recoupable_poa_claims}

-- The lines of a final or nil bill are numbered in a row from 1, whether it has fees, disbursements,
-- both or neither.
pub final_or_nil_bill_payment_extract_lines-NumberedFrom :
    (claim : ClaimRow) (p : PayInFullClaim)
    → NumberedFrom 1 (final_or_nil_bill_payment_extract_lines claim p)
unfolding final_or_nil_bill_payment_extract_lines build_final_bill_fees_extract
    build_final_bill_nil_fees_extract
final_or_nil_bill_payment_extract_lines-NumberedFrom claim p =
    elim (Bool-cases (has_nil_amounts p)) [
      | inl nil ↦ rw (nil) (refl, tt)
      | inr nil ↦ elim (Bool-cases (is_positive p.profit_cost_vat_zero)) [
        | inl zero_rated ↦ rw (nil, zero_rated) (refl, disbursements 2)
        | inr zero_rated ↦ elim (Bool-cases (is_positive p.profit_cost_gross)) [
          | inl fees ↦ rw (nil, zero_rated, fees) (refl, disbursements 2)
          | inr fees ↦ rw (nil, zero_rated, fees) (disbursements 1)
        ]
      ]
    ]
  where
    disbursements :
        (n : ℕ)
        → NumberedFrom n (
            build_final_bill_disbursement_extract claim.claim_reference n claim.submission_date.date
              p.disbursement_gross p.disbursement_vat_zero)
    disbursements n =
        build_final_bill_disbursement_extract-NumberedFrom claim.claim_reference n
          claim.submission_date.date p.disbursement_gross p.disbursement_vat_zero

one_more : (n : ℕ) → n + 1 ≡ 1 + n
one_more n = omega arith

module _ (env : Env) (d : Db) (cs : List ClaimRow) (ds : List ClaimDecision) where
  -- Lines that are numbered in a row from `n`, read from tables that are left as they are.
  abbrev Numbers : ℕ → Action (List PaymentExtractLine) → Type 0
  Numbers n m = Runs env d (At env d cs ds) m (λ ls s. NumberedFrom n ls × At env d cs ds s)

  Numbers-recoup_each :
      (date : Date) (claims : List ClaimRow) (n : ℕ) → Numbers n (recoup_each date n claims)
  unfolding recoup_each get_payment_extracts_by_claim_id
  Numbers-recoup_each date [] n = Runs-pure env d [] (λ s h. (tt, h))
  Numbers-recoup_each date (c ∷ claims) n =
      Runs-bind env d _ _ (Keeps-query env d cs ds _) λ extracts.
        Runs-bind env d _ _ (Numbers-recoup_each date claims _) λ rest.
          Runs-given env d _ λ numbered. Runs-pure env d _ (λ s h.
            (NumberedFrom-append n _ rest (build_recoupment_extract_lem n date _).1 numbered, h))

  Numbers-payment_lines :
      (ports : ExtractPorts) (a : Application) (claim : ClaimRow) (p : PayInFullClaim)
      (decided : Datetime)
      → is_payment_on_account claim.claim_type_id ≡ false
      → Numbers 1 (payment_lines ports a claim p decided)
  unfolding payment_lines
  Numbers-payment_lines ports a claim p decided bill = rw (bill) (
      Runs-bind env d _ _
        (Keeps-recoupable_poa_claims env d cs ds ports a.application_id claim.claim_id)
        λ poa. Runs-bind env d _ _ (Numbers-recoup_each decided.date poa _) λ recouped.
          Runs-given env d _ λ numbered. Runs-pure env d _ (λ s h. (
            NumberedFrom-append 1 _ recouped
                (final_or_nil_bill_payment_extract_lines-NumberedFrom claim p)
                (subst (λ n. NumberedFrom n recouped) (one_more _) numbered),
            h,
          )))

-- The payment lines of a final or nil bill together with the lines that recoup the payments on
-- account before it are numbered in a row from 1, where reading the tables does not fail.
pub payment_lines-NumberedFrom :
    (env : Env) (ports : ExtractPorts) (a : Application) (claim : ClaimRow) (p : PayInFullClaim)
    (decided : Datetime) (s : Session)
    → is_payment_on_account claim.claim_type_id ≡ false
    → Outcome env s.committed
        (λ ls _. NumberedFrom 1 ls)
        (payment_lines ports a claim p decided env s)
payment_lines-NumberedFrom env ports a claim p decided s bill =
    (Runs-weaken env s.committed (λ ls _ h. h.0)
        (Numbers-payment_lines env s.committed s.working.claims s.working.decisions ports a claim p
          decided bill)).at
      s (refl, refl, refl)
