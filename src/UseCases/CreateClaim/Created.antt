-- ===== src/UseCases/CreateClaim/Created.antt =====
-- A claim that app/use_cases/create_claim.py has created, in the committed tables.
use laa_inquests_api.Prelude.{◌≡◌, refl, ap, sym, subst, ◌∙◌, List, [], ◌∷◌, ◌++◌, ℕ}
use laa_inquests_api.Enums.{ClaimStatus, ClaimDecisionStatus}
use laa_inquests_api.Records.{ClaimRow, ClaimDecision}
use laa_inquests_api.Store.{Db, Session, Env}
use laa_inquests_api.Store.Triples.{Stage}
use laa_inquests_api.UseCases.CreateClaim.Phases.{in_status}
use laa_inquests_api.UseCases.CreateClaim.Rows.{Fresh, map-with_status, in_status_same}
use laa_inquests_api.UseCases.CreateClaim.Writes.{Submitted, AfterDecision}

-- The decisions that a claim in this status has got.
abbrev pub Settles : ClaimStatus → ℕ → List ClaimDecision → Type 0
Settles ClaimStatus.submitted id [] = Unit
Settles ClaimStatus.rejected id (x ∷ []) =
    (x.claim_id ≡ id) × (x.decision ≡ ClaimDecisionStatus.reject)
Settles ClaimStatus.pay_in_full id (x ∷ []) =
    (x.claim_id ≡ id) × (x.decision ≡ ClaimDecisionStatus.pay_in_full)
Settles _ id _ = ⊥

-- The committed data is that of `d` with one claim more, `row`, and its decisions.
abbrev pub Created : Db → ClaimRow → Session → Type 0
Created d row s =
    (added : List ClaimDecision) × (Settles row.status_id row.claim_id added
      × Stage (d.claims ++ (row ∷ [])) (d.decisions ++ added) s)

append_nil : (ds : List ClaimDecision) → ds ≡ ds ++ []
append_nil [] = refl
append_nil (d ∷ ds) = ap (λ r. d ∷ r) (append_nil ds)

pub Submitted-Created :
    (d : Db) (row : ClaimRow) (s : Session) → Submitted d row s → Created d row s
Submitted-Created d row s h = (
  [],
  (
    subst (λ t. Settles t row.claim_id []) (sym h.0.1) tt,
    (h.1.0, h.1.1, h.1.2 ∙ append_nil d.decisions),
  ),
)

-- A failed decision gives the claim in memory back its status.
pub undone-Created :
    (d : Db) (row : ClaimRow) (s : Session)
    → Submitted d row s
    → Created d (in_status ClaimStatus.submitted row) s
undone-Created d row s h =
    subst (λ r. Created d r s) (sym (in_status_same ClaimStatus.submitted row h.0.1))
      (Submitted-Created d row s h)

pub decided-Created :
    (env : Env) (d : Db) (row : ClaimRow) (status : ClaimStatus) (outcome : ClaimDecisionStatus)
    (s : Session)
    → Fresh row.claim_id d.claims
    → ((x : ClaimDecision)
        → ((x.claim_id ≡ row.claim_id) × (x.decision ≡ outcome))
        → Settles status row.claim_id (x ∷ []))
    → AfterDecision env d (d.claims ++ (row ∷ [])) d.decisions row.claim_id status outcome s
    → Created d (in_status status row) s
decided-Created env d row status outcome s fresh settles (x, (made, h)) =
    (x ∷ [], (settles x made, (h.0, h.1 ∙ map-with_status status d.claims row fresh, h.2)))
