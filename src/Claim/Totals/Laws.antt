-- ===== src/Claim/Totals/Laws.antt =====
-- What `validate_total_claim_cost` of app/domain/claim.py guarantees of the amounts it accepts.
use laa_inquests_api.Prelude.{◌≡◌, ◌≢◌, ◌⊎◌, ◌↔◌, Option, none, some, true, ok, is_ok, arith}
use laa_inquests_api.Enums.{
  ClaimType, PoaType, payment_on_account, final_bill, nil_bill, profit_cost,
}
use laa_inquests_api.Prelude.Int.{ℤ, pos, ◌≤ℤ◌, ◌<ℤ◌}
use laa_inquests_api.Money.{resolve_claim_total}
use laa_inquests_api.Claim.{Claim}
use laa_inquests_api.Claim.Totals.{validate_total_claim_cost}
use laa_inquests_api.Claim.Rules.{FitsType}

-- Accepting a well-formed claim's amounts leaves it a resolvable total, the same as before.
pub validate_total_resolves :
    (c c' : Claim)
    → FitsType c
    → validate_total_claim_cost c ≡ ok c'
    → (resolve_claim_total c'.gross c'.vat_zero_total ≢ none)
      × (resolve_claim_total c'.gross c'.vat_zero_total
          ≡ resolve_claim_total c.gross c.vat_zero_total)
unfolding validate_total_claim_cost resolve_claim_total
validate_total_resolves c c' f h = ground (arith, f.poa)

abbrev pub NonNegative : Option ℤ → Type 0
NonNegative none = Unit
NonNegative (some n) = pos 0 ≤ℤ n

abbrev pub Positive : Option ℤ → Type 0
Positive none = ⊥
Positive (some n) = pos 0 <ℤ n

-- The first amount is given only with the second, which is no smaller.
abbrev pub CoveredBy : Option ℤ → Option ℤ → Type 0
CoveredBy none _ = Unit
CoveredBy (some n) none = ⊥
CoveredBy (some n) (some g) = n ≤ℤ g

-- A profit cost claim: an amount at 0% VAT alone, or a net and a gross amount.
abbrev pub ProfitCostTotals : Claim → Type 0
ProfitCostTotals c =
    ((c.net ≡ none) × (c.gross ≡ none) × (c.vat_zero_total ≢ none))
    ⊎ ((c.net ≢ none) × (c.gross ≢ none) × (c.vat_zero_total ≡ none))

-- The amounts that each type of claim may have.
abbrev pub FitsTotals : ClaimType → Option PoaType → Claim → Type 0
FitsTotals final_bill _ c = (c.net ≡ none) × (c.vat_zero_total ≡ none) × Positive c.gross
FitsTotals nil_bill _ c = (c.net ≡ none) × (c.vat_zero_total ≡ none) × (c.gross ≡ some (pos 0))
FitsTotals payment_on_account (some profit_cost) c =
    NonNegative c.net × CoveredBy c.net c.gross × ProfitCostTotals c
FitsTotals payment_on_account _ c =
    NonNegative c.net × CoveredBy c.net c.gross × ((c.gross ≢ none) ⊎ (c.vat_zero_total ≢ none))

-- The amounts of a well-formed claim are accepted exactly when they fit its type: a positive gross
-- for a final bill, a gross of zero for a nil bill, and for a payment on account a net that is not
-- negative and stands only with a gross as large, together with a total.
pub validate_total_iff :
    (c : Claim)
    → FitsType c
    → (is_ok (validate_total_claim_cost c) ≡ true) ↔ FitsTotals c.claim_type c.poa_type c
unfolding validate_total_claim_cost
validate_total_iff c f = ground (arith, f.poa)
