-- ===== src/Claim/Review/Approval.antt =====
-- What an automatic approval guarantees: the decisions of `should_auto_reject`,
-- `requires_manual_review` and `is_eligible_for_auto_approval` of app/domain/claim.py together.
use laa_inquests_api.Prelude.{
  ◌≡◌, ◌≢◌, ◌↔◌, ◌<◌, none, some, true, false, List, [], length, select, Option, Option-cases, inl,
  inr, ◌&&◌, not, Bool, arith,
}
use laa_inquests_api.Prelude.Int.{ℤ, ◌≤ℤ◌, ◌+ℤ◌}
use laa_inquests_api.Enums.{PoaType, payment_on_account, profit_cost, granted}
use laa_inquests_api.Calendar.{Datetime, Date, before, add_calendar_months}
use laa_inquests_api.Money.{resolve_claim_total, auto_approval_max_total}
use laa_inquests_api.Application.{Application, overall_decision}
use laa_inquests_api.Claim.{Claim}
use laa_inquests_api.Claim.Rules.{FitsType}
use laa_inquests_api.Claim.Review.{
  ExistingClaimSummary, should_auto_reject, requires_manual_review, is_eligible_for_auto_approval,
  should_auto_reject_for_max_poa_count, should_auto_reject_for_limit, is_rejected, is_withdrawn,
  should_auto_reject_for_early_profit_cost_poa, exceeds_hard_poa_limit, paid_total,
  exceeds_aggregate_cost_limit, get_substantive_cost_limit, is_active_poa, poa_cutoff,
}

-- The test under which the claim is approved on submission.
abbrev pub auto_approves : Claim → Application → List ExistingClaimSummary → Datetime → Bool
auto_approves c a existing now =
    not (is_rejected (should_auto_reject c a existing now))
    && not (requires_manual_review c a existing)
    && is_eligible_for_auto_approval c a

-- No amount beyond the limit, where there is a limit.
abbrev pub Within : ℤ → Option ℤ → Type 0
Within amount none = Unit
Within amount (some limit) = amount ≤ℤ limit

-- The start of the certificate, where it is known, lies three calendar months back or more.
abbrev pub NotEarly : Datetime → Option Date → Type 0
NotEarly now none = Unit
NotEarly now (some start) = before now.date (add_calendar_months start 3) ≡ false

-- What holds of claims for profit costs only.
abbrev pub ForProfitCost : Option PoaType → Type 0 → Type 0
ForProfitCost (some profit_cost) p = p
ForProfitCost _ p = Unit

pub record ApprovalRules (c : Claim) (a : Application) (existing : List ExistingClaimSummary)
    (now : Datetime) (amount : ℤ) : Type 0 where
  pub poa : c.claim_type ≡ payment_on_account
  pub has_total : resolve_claim_total c.gross c.vat_zero_total ≡ some amount
  pub hard_limit : amount ≤ℤ auto_approval_max_total
  pub case_limit : Within amount (get_substantive_cost_limit a)
  pub aggregate_limit : Within (paid_total existing +ℤ amount) (get_substantive_cost_limit a)
  pub live : is_withdrawn a ≡ false
  pub granted_application : overall_decision a ≡ granted
  pub few_poas :
      ForProfitCost c.poa_type (length (select (is_active_poa (poa_cutoff now)) existing) < 4)
  pub not_early : ForProfitCost c.poa_type (NotEarly now a.proceeding.certificate_start_date)

module _ (c : Claim) (a : Application) (existing : List ExistingClaimSummary) (now : Datetime) where
  rules_of_approval :
      auto_approves c a existing now ≡ true → (amount : ℤ) × ApprovalRules c a existing now amount
  unfolding should_auto_reject requires_manual_review is_eligible_for_auto_approval
      should_auto_reject_for_max_poa_count should_auto_reject_for_limit
      should_auto_reject_for_early_profit_cost_poa exceeds_hard_poa_limit
      exceeds_aggregate_cost_limit
  rules_of_approval h = elim (Option-cases (resolve_claim_total c.gross c.vat_zero_total)) [
    | inl e ↦ absurd (ground arith)
    | inr (amount, e) ↦ (amount, ground arith)
  ]

  approval_of_rules :
      (amount : ℤ) → ApprovalRules c a existing now amount → auto_approves c a existing now ≡ true
  unfolding should_auto_reject requires_manual_review is_eligible_for_auto_approval
      should_auto_reject_for_max_poa_count should_auto_reject_for_limit
      should_auto_reject_for_early_profit_cost_poa exceeds_hard_poa_limit
      exceeds_aggregate_cost_limit
  approval_of_rules amount r = ground (arith, r.has_total)

  -- A claim is approved on submission exactly when it is a payment on account whose total is at
  -- most £50,000, within the case's cost limit alone and together with all that is paid already,
  -- on an application that is granted and not withdrawn; and, for a profit cost claim, there are
  -- fewer than four active ones in the last 365 days and three months or more have passed since
  -- the certificate's start.
  pub auto_approves_iff :
      (auto_approves c a existing now ≡ true)
      ↔ ((amount : ℤ) × ApprovalRules c a existing now amount)
  auto_approves_iff = (rules_of_approval, λ (amount, r). approval_of_rules amount r)

  -- A well-formed final or nil bill is never rejected, approved or held by the automatic review.
  pub bill_untouched :
      FitsType c
      → c.claim_type ≢ payment_on_account
      → (should_auto_reject c a existing now ≡ [])
        × (requires_manual_review c a existing ≡ false)
        × (is_eligible_for_auto_approval c a ≡ false)
  unfolding should_auto_reject requires_manual_review is_eligible_for_auto_approval
      should_auto_reject_for_max_poa_count should_auto_reject_for_limit
      should_auto_reject_for_early_profit_cost_poa
  bill_untouched f h = ground (arith, f.poa)
