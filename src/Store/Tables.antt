-- ===== src/Store/Tables.antt =====
-- Reading and writing the tables of the claims, apart from failures: what the statements of
-- app/adapters/claim_repository_adapter.py select and change.
use laa_inquests_api.Prelude.{
  ℕ, Bool, Option, none, some, List, [], ◌∷◌, ◌++◌, map, select, any, leb, ◌==◌, if◌then◌else◌,
}
use laa_inquests_api.Text.{Text, eq_text, strip, upper}
use laa_inquests_api.Enums.{ClaimStatus}
use laa_inquests_api.Application.{Application}
use laa_inquests_api.Records.{ClaimRow, ClaimDecision, ClaimPaymentExtract, ClaimEvidence}
use laa_inquests_api.Store.{Db}

-- `session.exec(statement).first()`
abbrev pub first {ℓ} : {A : Type ℓ} → List A → Option A
first [] = none
first (x ∷ xs) = some x

-- `get_application_by_laa_reference` of app/adapters/application_repository_adapter.py
unfoldable pub application_by_laa_reference : Text → Db → Option Application
application_by_laa_reference reference db = first (
    select (λ (a : Application). eq_text a.laa_reference (upper (strip reference))) db.applications)

-- `get_claims_by_application_id`
unfoldable pub claims_by_application_id : ℕ → Db → List ClaimRow
claims_by_application_id id db = select (λ (c : ClaimRow). c.application_id == id) db.claims

-- `get_claim_by_reference`
unfoldable pub claim_by_reference : Text → Db → Option ClaimRow
claim_by_reference reference db =
    first (select (λ (c : ClaimRow). eq_text c.claim_reference reference) db.claims)

-- `exists().where(Claim.claim_reference == claim_reference)`
unfoldable pub reference_exists : Text → Db → Bool
reference_exists reference db =
    any (λ (c : ClaimRow). eq_text c.claim_reference reference) db.claims

-- Rows by a key, the smallest first, rows of one key in their order: `order_by(key.asc())`.
module _ {ℓ} {A : Type ℓ} (key : A → ℕ) where
  insert_by : A → List A → List A
  insert_by x [] = x ∷ []
  insert_by x (y ∷ ys) =
      let rest = insert_by x ys in if leb (key x) (key y) then x ∷ y ∷ ys else y ∷ rest

  pub order_by : List A → List A
  order_by [] = []
  order_by (x ∷ xs) = insert_by x (order_by xs)

-- `get_payment_extracts_by_claim_id`
unfoldable pub payment_extracts_by_claim_id : ℕ → Db → List ClaimPaymentExtract
unfolding order_by insert_by
payment_extracts_by_claim_id id db =
    order_by (λ (e : ClaimPaymentExtract). e.sequence_number)
      (select (λ (e : ClaimPaymentExtract). e.claim_id == id) db.extracts)

-- The decision with the largest key, which `get_claim_decision_by_claim_id` returns.
latest_of : Option ClaimDecision → List ClaimDecision → Option ClaimDecision
latest_of best [] = best
latest_of none (d ∷ ds) = latest_of (some d) ds
latest_of (some b) (d ∷ ds) =
    latest_of (some (if leb d.claim_decision_id b.claim_decision_id then b else d)) ds

unfoldable pub decision_by_claim_id : ℕ → Db → Option ClaimDecision
unfolding latest_of
decision_by_claim_id id db =
    latest_of none (select (λ (d : ClaimDecision). d.claim_id == id) db.decisions)

abbrev pub with_status : ℕ → ClaimStatus → ClaimRow → ClaimRow
with_status id status c = if c.claim_id == id then record c { status_id = status } else c

-- The write of `update_claim_status`.
unfoldable pub set_status : ℕ → ClaimStatus → Db → Db
set_status id status db = record db { claims = map (with_status id status) db.claims }

-- The write of one round of `link_evidence_to_claim`.
unfoldable pub link_one : ℕ → ℕ → Db → Db
link_one claim evidence_id db = record db {
  evidence =
      map
        (λ (e : ClaimEvidence).
          if e.claim_evidence_id == evidence_id then record e { claim_id = some claim } else e)
        db.evidence;
}

unfoldable pub add_claim : ClaimRow → Db → Db
add_claim c db = record db { claims = db.claims ++ (c ∷ []) }

unfoldable pub add_decision : ClaimDecision → Db → Db
add_decision d db = record db { decisions = db.decisions ++ (d ∷ []) }
