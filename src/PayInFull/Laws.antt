-- ===== src/PayInFull/Laws.antt =====
-- When the submitted amounts of a payment on account can be paid as they stand
-- (`pay_in_full_claim_from_submitted_poa_claim` and `validate` of app/domain/pay_in_full.py).
use laa_inquests_api.Prelude.{
  ◌≡◌, ◌≢◌, ◌⊎◌, ◌↔◌, none, some, ok, arith, ap, ◌∙◌, Option-cases, inl, inr,
}
use laa_inquests_api.Prelude.Int.{ℤ, pos, ◌+ℤ◌, ◌<ℤ◌, eq_of_parts}
use laa_inquests_api.Enums.{PoaType, payment_on_account, profit_cost, nil_bill}
use laa_inquests_api.PayInFull.{
  PayInFullClaim, validate, pay_in_full_claim_from_submitted_poa_claim,
}
use laa_inquests_api.Claim.{Claim}
use laa_inquests_api.Claim.Totals.{validate_total_claim_cost}

-- The decision amounts of a claim that is paid as submitted.
abbrev pub as_submitted : Claim → PayInFullClaim
as_submitted c =
    pay_in_full_claim_from_submitted_poa_claim c.claim_type c.poa_type c.net c.gross
      c.vat_zero_total

-- The submitted amounts of an accepted profit cost claim always pass the decision's validation.
pub profit_cost_payable :
    (c c' : Claim)
    → c.claim_type ≡ payment_on_account
    → c.poa_type ≡ some profit_cost
    → validate_total_claim_cost c ≡ ok c'
    → validate (as_submitted c') ≡ ok tt
unfolding validate_total_claim_cost validate pay_in_full_claim_from_submitted_poa_claim
profit_cost_payable c c' t p h = ground arith

-- Accepting a claim's amounts keeps its type.
validate_total_keeps_type :
    (c c' : Claim)
    → validate_total_claim_cost c ≡ ok c'
    → (c'.claim_type ≡ c.claim_type) × (c'.poa_type ≡ c.poa_type)
unfolding validate_total_claim_cost
validate_total_keeps_type c c' h = ground arith

disbursement_only_iff :
    (k : PoaType) (n g v : ℤ)
    → k ≢ profit_cost
    → (validate (
          pay_in_full_claim_from_submitted_poa_claim payment_on_account
            (some k)
            (some n)
            (some g)
            (some v))
        ≡ ok tt)
      ↔ ((v +ℤ n <ℤ g) ⊎ ((n ≡ pos 0) × ((g ≡ pos 0) ⊎ (g ≡ v))))
unfolding validate pay_in_full_claim_from_submitted_poa_claim
disbursement_only_iff k n g v h =
    ground (arith, eq_of_parts n (pos 0), eq_of_parts g (pos 0), eq_of_parts g v)

-- The submitted amounts of an accepted claim for expert costs or other disbursements pass the
-- decision's validation exactly when the gross exceeds the net and 0% VAT amounts together, or
-- the net is zero and the gross zero or all at 0% VAT.
pub disbursement_payable_iff :
    (c c' : Claim) (n g v : ℤ)
    → c.claim_type ≡ payment_on_account
    → c.poa_type ≢ none
    → c.poa_type ≢ some profit_cost
    → validate_total_claim_cost c ≡ ok c'
    → c'.net ≡ some n
    → c'.gross ≡ some g
    → c'.vat_zero_total ≡ some v
    → (validate (as_submitted c') ≡ ok tt)
      ↔ ((v +ℤ n <ℤ g) ⊎ ((n ≡ pos 0) × ((g ≡ pos 0) ⊎ (g ≡ v))))
disbursement_payable_iff c c' n g v t p q h en eg ev = elim (Option-cases c.poa_type) [
  | inl e ↦ absurd (p e)
  | inr (k, e) ↦
      let (same_type, same_poa) = validate_total_keeps_type c c' h in
      rw (same_type, same_poa, t, e, en, eg, ev)
        (disbursement_only_iff k n g v (λ r. q (e ∙ ap some r)))
]

-- A decision on a nil bill is accepted only with no amount at all.
pub nil_bill_no_amounts :
    (d : PayInFullClaim)
    → d.claim_type_id ≡ nil_bill
    → (validate d ≡ ok tt) ↔ (
        (d.profit_cost_net ≡ none)
        × (d.profit_cost_gross ≡ none)
        × (d.profit_cost_vat_zero ≡ none)
        × (d.disbursement_net ≡ none)
        × (d.disbursement_gross ≡ none)
        × (d.disbursement_vat_zero ≡ none))
unfolding validate
nil_bill_no_amounts d e = ground arith
