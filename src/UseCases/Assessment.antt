-- ===== src/UseCases/Assessment.antt =====
-- What an assessment of a claim by a caseworker commits, for app/use_cases/reject_claim.py and
-- app/use_cases/pay_in_full_claim.py alike.
use laa_inquests_api.Prelude.{
  ℕ, false, not, ◌≡◌, ap, sym, ◌∙◌, some, [], ◌∷◌, ◌++◌, map, arith, ◌==◌, select,
}
use laa_inquests_api.Text.{Text, eq_text}
use laa_inquests_api.Enums.{ClaimStatus, ClaimDecisionStatus, is_submitted}
use laa_inquests_api.Application.{Application}
use laa_inquests_api.Records.{ClaimRow, ClaimDecision}
use laa_inquests_api.Store.{Db, Session, Env}
use laa_inquests_api.Store.Tables.{with_status, claim_by_reference, first}
use laa_inquests_api.Store.Actions.{gets}
use laa_inquests_api.Store.Repository.{get_claim_by_reference, get_application_by_laa_reference}
use laa_inquests_api.Store.Triples.{
  At, Runs, Runs-pure, Runs-bind, Runs-given, Runs-step, Runs-check, Runs-or_raise, Runs-call,
}
use laa_inquests_api.Store.Writes.{Keeps-query}
use laa_inquests_api.UseCases.RejectClaim.{claim_for_assessment}

-- `claim` is the one that `reference` names in `d`, it is of the application, and it awaits its
-- assessment.
abbrev pub Assessable : Db → Application → Text → ClaimRow → Type 0
Assessable d a reference claim =
    (claim_by_reference reference d ≡ some claim)
    × (claim.application_id ≡ a.application_id)
    × (claim.status_id ≡ ClaimStatus.submitted)

-- What is committed after `claim` was decided: its status is new, one decision on it is added, and
-- the other claims and decisions are as they were in `d`.
abbrev pub Decided : Db → ClaimRow → ClaimStatus → ClaimDecisionStatus → Db → Type 0
Decided d claim status outcome d' =
    (d'.claims ≡ map (with_status claim.claim_id status) d.claims)
    × (a : ClaimDecision) × ((a.claim_id ≡ claim.claim_id) × (a.decision ≡ outcome))
    × (d'.decisions ≡ d.decisions ++ (a ∷ []))

is_submitted_lem : (s : ClaimStatus) → not (is_submitted s) ≡ false → s ≡ ClaimStatus.submitted
is_submitted_lem s h = ground arith

same_application : (m n : ℕ) → not (m == n) ≡ false → m ≡ n
same_application m n h = ground arith

module _ (env : Env) (d : Db) (a : Application) (reference : Text) where
  abbrev Here : Session → Type 0
  Here = At env d d.claims d.decisions

  Runs-get_claim_by_reference :
      Runs env d Here
        (get_claim_by_reference reference)
        (λ found s. (claim_by_reference reference d ≡ found) × Here s)
  unfolding get_claim_by_reference claim_by_reference gets
  Runs-get_claim_by_reference =
      Runs-bind env d _ _ (Runs-call env d d.claims d.decisions (λ s. s) (λ s h. h)) λ _.
        Runs-step env d _ λ s h. (
          ap (λ cs. first (select (λ (c : ClaimRow). eq_text c.claim_reference reference) cs))
              (sym h.1),
          h,
        )

  pub Runs-claim_for_assessment :
      Runs env d Here
        (claim_for_assessment a reference)
        (λ claim s. Assessable d a reference claim × Here s)
  unfolding claim_for_assessment
  Runs-claim_for_assessment = Runs-bind env d _ _ Runs-get_claim_by_reference λ found.
      Runs-given env d _ λ e.
        Runs-bind env d _ _ (Runs-or_raise env d d.claims d.decisions found _) λ claim.
          Runs-given env d _ λ e'.
            Runs-bind env d _ _ (Runs-check env d d.claims d.decisions _ _) λ _.
              Runs-given env d _ λ same.
                Runs-bind env d _ _ (Runs-check env d d.claims d.decisions _ _) λ _.
                  Runs-given env d _ λ waits. Runs-pure env d claim λ s h. (
                    (
                      e ∙ e',
                      same_application claim.application_id a.application_id same,
                      is_submitted_lem claim.status_id waits,
                    ),
                    h,
                  )

module _ (env : Env) (d : Db) where
  -- A use case begins by looking up the application.
  pub Runs-get_application_by_laa_reference :
      (laa_reference : Text)
      → Runs env d
          (At env d d.claims d.decisions)
          (get_application_by_laa_reference laa_reference)
          (λ _. At env d d.claims d.decisions)
  unfolding get_application_by_laa_reference
  Runs-get_application_by_laa_reference laa_reference = Keeps-query env d d.claims d.decisions _
