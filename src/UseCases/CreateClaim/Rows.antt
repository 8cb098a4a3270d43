-- ===== src/UseCases/CreateClaim/Rows.antt =====
-- The table of claims with a new claim at its end.
use laa_inquests_api.Prelude.{ℕ, ◌≡◌, ◌≢◌, refl, ap, sym, List, [], ◌∷◌, ◌++◌, map, arith}
use laa_inquests_api.Enums.{ClaimStatus}
use laa_inquests_api.Records.{ClaimRow}
use laa_inquests_api.Store.Tables.{with_status}
use laa_inquests_api.UseCases.CreateClaim.Phases.{in_status}

-- No claim has the key.
abbrev pub Fresh : ℕ → List ClaimRow → Type 0
Fresh id [] = Unit
Fresh id (c ∷ cs) = (c.claim_id ≢ id) × Fresh id cs

with_status_here :
    (status : ClaimStatus) (row : ClaimRow)
    → with_status row.claim_id status row ≡ in_status status row
with_status_here status row = ground arith

with_status_elsewhere :
    (id : ℕ) (status : ClaimStatus) (c : ClaimRow) → c.claim_id ≢ id → with_status id status c ≡ c
with_status_elsewhere id status c h = ground arith

-- A new status of the new claim leaves the others.
pub map-with_status :
    (status : ClaimStatus) (cs : List ClaimRow) (row : ClaimRow)
    → Fresh row.claim_id cs
    → map (with_status row.claim_id status) (cs ++ (row ∷ [])) ≡ cs ++ (in_status status row ∷ [])
map-with_status status [] row h = ap (λ r. r ∷ []) (with_status_here status row)
map-with_status status (c ∷ cs) row h =
    rw (with_status_elsewhere row.claim_id status c h.0, map-with_status status cs row h.1) refl

-- A claim in its own status.
pub in_status_same :
    (status : ClaimStatus) (row : ClaimRow) → row.status_id ≡ status → in_status status row ≡ row
in_status_same status row h = ap (λ t. in_status t row) (sym h)
