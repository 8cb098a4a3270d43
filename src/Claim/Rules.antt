-- ===== src/Claim/Rules.antt =====
-- The fields that each type of claim must have, stated apart from the checks of `__post_init__`
-- of app/domain/claim.py.
use laa_inquests_api.Prelude.{◌≡◌, ◌≢◌, ◌↔◌, ◌⊎◌, none, [], ◌>>◌, Check, ok, arith}
use laa_inquests_api.Enums.{ClaimType, payment_on_account, final_bill}
use laa_inquests_api.Claim.{
  Claim, post_init, validate_claim_type_poa_combination, validate_inquest_outcomes,
  validate_cost_template_file, validate_recovery_details, validate_counsel_details,
}

-- A POA type for payments on account only.
abbrev pub FitsPoa : ClaimType → Claim → Type 0
FitsPoa payment_on_account c = c.poa_type ≢ none
FitsPoa _ c = c.poa_type ≡ none

-- Inquest outcomes for bills only.
abbrev pub FitsOutcomes : ClaimType → Claim → Type 0
FitsOutcomes payment_on_account c = c.inquest_outcomes ≡ []
FitsOutcomes _ c = c.inquest_outcomes ≢ []

-- The id and the name of a cost template file for final bills, and not both for others.
abbrev pub FitsTemplate : ClaimType → Claim → Type 0
FitsTemplate final_bill c = (c.cost_template_file_id ≢ none) × (c.cost_template_file_name ≢ none)
FitsTemplate _ c = (c.cost_template_file_id ≡ none) ⊎ (c.cost_template_file_name ≡ none)

-- No recovery detail for payments on account, and all of them for bills.
abbrev pub FitsRecovery : ClaimType → Claim → Type 0
FitsRecovery payment_on_account c =
    (c.has_alternative_funding ≡ none)
    × (c.has_recovery_costs_awarded ≡ none)
    × (c.financial_recovery_previous_pre_certificate_costs ≡ none)
    × (c.financial_recovery_cost ≡ none)
    × (c.financial_recovery_damages ≡ none)
    × (c.financial_recovery_interest ≡ none)
    × (c.paying_party ≡ none)
FitsRecovery _ c =
    (c.has_alternative_funding ≢ none)
    × (c.has_recovery_costs_awarded ≢ none)
    × (c.financial_recovery_previous_pre_certificate_costs ≢ none)
    × (c.financial_recovery_cost ≢ none)
    × (c.financial_recovery_damages ≢ none)
    × (c.financial_recovery_interest ≢ none)
    × (c.paying_party ≢ none)

-- All counsel details for final bills, and none for others.
abbrev pub FitsCounsel : ClaimType → Claim → Type 0
FitsCounsel final_bill c =
    (c.has_counsel_been_paid ≢ none) × (c.number_of_counsel_instructed ≢ none)
FitsCounsel _ c = (c.has_counsel_been_paid ≡ none) × (c.number_of_counsel_instructed ≡ none)

pub record FitsType (c : Claim) : Type 0 where
  pub poa : FitsPoa c.claim_type c
  pub outcomes : FitsOutcomes c.claim_type c
  pub template : FitsTemplate c.claim_type c
  pub recovery : FitsRecovery c.claim_type c
  pub counsel : FitsCounsel c.claim_type c

module _ (c : Claim) where
  poa_iff : (validate_claim_type_poa_combination c ≡ ok tt) ↔ FitsPoa c.claim_type c
  unfolding validate_claim_type_poa_combination
  poa_iff = ground arith

  outcomes_iff : (validate_inquest_outcomes c ≡ ok tt) ↔ FitsOutcomes c.claim_type c
  unfolding validate_inquest_outcomes
  outcomes_iff = ground arith

  template_iff : (validate_cost_template_file c ≡ ok tt) ↔ FitsTemplate c.claim_type c
  unfolding validate_cost_template_file
  template_iff = ground arith

  recovery_iff : (validate_recovery_details c ≡ ok tt) ↔ FitsRecovery c.claim_type c
  unfolding validate_recovery_details
  recovery_iff = ground arith

  counsel_iff : (validate_counsel_details c ≡ ok tt) ↔ FitsCounsel c.claim_type c
  unfolding validate_counsel_details
  counsel_iff = ground arith

-- Five checks in a row pass when each passes.
all_checks_iff {ℓ} :
    {E : Type ℓ} (a b c d e : Check E)
    → ((a >> b >> c >> d >> e) ≡ ok tt)
      ↔ ((a ≡ ok tt) × (b ≡ ok tt) × (c ≡ ok tt) × (d ≡ ok tt) × (e ≡ ok tt))
all_checks_iff a b c d e = ground arith

-- A claim is constructed exactly when it has the fields that its type calls for and no others:
-- a POA type for payments on account only, inquest outcomes and all recovery details for bills
-- only, and a cost template file and all counsel details for final bills only.
pub post_init_iff : (c : Claim) → (post_init c ≡ ok tt) ↔ FitsType c
unfolding post_init
post_init_iff c =
    let checks =
      all_checks_iff (validate_claim_type_poa_combination c) (validate_inquest_outcomes c)
        (validate_cost_template_file c) (validate_recovery_details c)
        (validate_counsel_details c) in
    (
      λ h.
          let (p, o, t, r, n) = checks.0 h in
          record {
            poa = (poa_iff c).0 p;
            outcomes = (outcomes_iff c).0 o;
            template = (template_iff c).0 t;
            recovery = (recovery_iff c).0 r;
            counsel = (counsel_iff c).0 n;
          },
      λ f. checks.1 (
        (poa_iff c).1 f.poa,
        (outcomes_iff c).1 f.outcomes,
        (template_iff c).1 f.template,
        (recovery_iff c).1 f.recovery,
        (counsel_iff c).1 f.counsel,
      ),
    )
