-- ===== src/Money.antt =====
-- Amounts of money: app/domain/claim_total.py, the available funds of app/domain/claim.py, the
-- constants of app/domain/constants/claims.py and `bankers_round` of
-- app/domain/payment_extract.py.
--
-- A `Decimal` that the database keeps in a column `Numeric(10, 2)` is its whole number of pence.
-- A product of such an amount and the payment rates is its number of ten-thousandths of a pound.
pub mod Rounding
use laa_inquests_api.Prelude.{
  ℕ, suc, ◌+◌, ◌*◌, ◌/◌, ◌%◌, ◌&&◌, not, Bool, true, false, Option, none, some, List, [], ◌∷◌,
  is_some, value_or, ltb, ◌==◌, if◌then◌else◌, select, map,
}
use laa_inquests_api.Prelude.Int.{ℤ, pos, negsuc, ◌+ℤ◌, ◌-ℤ◌, neg_ℤ, eqb_ℤ}
use laa_inquests_api.Enums.{ClaimDecisionStatus}

-- `Decimal("50000.00")`
abbrev pub auto_approval_max_total : ℤ
auto_approval_max_total = pos 5000000

abbrev pub max_profit_cost_poa_claim_count : ℕ
max_profit_cost_poa_claim_count = 4

abbrev pub min_months_before_profit_cost_poa : ℕ
min_months_before_profit_cost_poa = 3

-- `resolve_claim_total`
unfoldable pub resolve_claim_total : Option ℤ → Option ℤ → Option ℤ
resolve_claim_total none vat_zero_total = vat_zero_total
resolve_claim_total (some gross) vat_zero_total =
    if not (eqb_ℤ gross (pos 0) && is_some vat_zero_total) then some gross else vat_zero_total

pub record ApprovedClaimAmount : Type 0 where
  pub decision : Option ClaimDecisionStatus
  pub gross : Option ℤ
  pub vat_zero_total : Option ℤ

-- `decision in APPROVED_CLAIM_DECISIONS`
abbrev pub in_approved_claim_decisions : Option ClaimDecisionStatus → Bool
in_approved_claim_decisions (some ClaimDecisionStatus.grant) = true
in_approved_claim_decisions (some ClaimDecisionStatus.pay_in_full) = true
in_approved_claim_decisions _ = false

-- `ApprovedClaimAmount.is_approved`
unfoldable pub is_approved : ApprovedClaimAmount → Bool
is_approved a = in_approved_claim_decisions a.decision

-- `ApprovedClaimAmount.payment_amount`
unfoldable pub payment_amount : ApprovedClaimAmount → ℤ
payment_amount a = value_or (resolve_claim_total a.gross a.vat_zero_total) (pos 0)

-- `sum(amounts, Decimal(0))`
unfoldable pub total : List ℤ → ℤ
total [] = pos 0
total (x ∷ xs) = x +ℤ total xs

-- `Decimal(str(limit))` in pence, for a limit in whole pounds
abbrev pub pounds : ℕ → ℤ
pounds n = pos (100 * n)

unfoldable pub calculate_available_funds : Option ℕ → List ApprovedClaimAmount → ℤ
calculate_available_funds substantive_cost_limitation claim_amounts =
    pounds (value_or substantive_cost_limitation 0)
    -ℤ total (map payment_amount (select is_approved claim_amounts))

-- Half even at hundredths of a magnitude.
round_half_even : ℕ → ℕ
round_half_even n =
    let q : ℕ = n / 100 in
    let r : ℕ = n % 100 in
    if ltb r 50 then q else if ltb 50 r then q + 1 else if q % 2 == 0 then q else q + 1

-- `bankers_round`: from ten-thousandths of a pound to pence
unfoldable pub bankers_round : ℤ → ℤ
unfolding round_half_even
bankers_round (pos n) = pos (round_half_even n)
bankers_round (negsuc n) = neg_ℤ (pos (round_half_even (suc n)))

-- A number of pence multiplied by a rate that is given in hundredths, in ten-thousandths of a
-- pound: `amount * PROFIT_COST_PAYMENT_RATE` at 80, with `* VAT_MULTIPLIER` as well at 96.
unfoldable pub at_rate : ℕ → ℤ → ℤ
at_rate rate (pos n) = pos (rate * n)
at_rate rate (negsuc n) = neg_ℤ (pos (rate * suc n))

abbrev pub profit_cost_payment_rate : ℕ
profit_cost_payment_rate = 80

abbrev pub profit_cost_payment_rate_with_vat : ℕ
profit_cost_payment_rate_with_vat = 96

-- An amount of pence in ten-thousandths of a pound.
abbrev pub as_fine : ℤ → ℤ
as_fine = at_rate 100
