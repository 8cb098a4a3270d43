-- ===== src/Store/Caught.antt =====
-- Transactions whose failure is handled, by a rollback and reads that may fail themselves.
use laa_inquests_api.Prelude.{◌≡◌, refl, ap, ◌∙◌, List, Result, ok, err}
use laa_inquests_api.Exceptions.{Exception}
use laa_inquests_api.Records.{ClaimRow, ClaimDecision}
use laa_inquests_api.Store.{Db, Session, Env}
use laa_inquests_api.Store.Actions.{Action, or_else, roll_back}
use laa_inquests_api.Store.Triples.{At, Stage, Outcome, Runs}
use laa_inquests_api.Store.Yields.{Ending, Yields}

-- The data that a transaction opens with.
pub Stage-At :
    (env : Env) (cs : List ClaimRow) (ds : List ClaimDecision) (s : Session)
    → Stage cs ds s
    → At env s.committed cs ds s
Stage-At env cs ds s h =
    (refl, ap (λ (d : Db). d.claims) h.0 ∙ h.1, ap (λ (d : Db). d.decisions) h.0 ∙ h.2)

-- These claims and decisions are committed.
abbrev pub Committed : List ClaimRow → List ClaimDecision → Session → Type 0
Committed cs ds s = (s.committed.claims ≡ cs) × (s.committed.decisions ≡ ds)

module _ (env : Env) (cs : List ClaimRow) (ds : List ClaimDecision) where
  pub Yields-roll_back :
      {E : Session → Type 0} → Yields env (Committed cs ds) roll_back (λ _. Stage cs ds) E
  Yields-roll_back = record { at = λ s h. (refl, h.0, h.1) }

  -- A transaction whose failure is handled.
  pub Yields-or_else :
      {A : Type 0} (m : Action (Unit {0})) (x : A) (handler : Action A) {R : A → Session → Type 0}
      {E : Session → Type 0}
      → ((e : Db) → Runs env e (At env e cs ds) m (λ _. R x))
      → Yields env (Committed cs ds) handler R E
      → Yields env (Stage cs ds) (or_else m x handler) R E
  Yields-or_else {A} m x handler {R} {E} success failure = record {
    at = λ s h. go s h (m env s) ((success s.committed).at s (Stage-At env cs ds s h));
  }
    where
      go :
          (s : Session)
          → Stage cs ds s
          → (r : Result Exception (Unit {0}) × Session)
          → Outcome env s.committed {A = Unit {0}} (λ _. R x) r
          → Ending env {A = A} R E (elim r.0 [ ok _ ↦ (ok x, r.1) | err _ ↦ handler env r.1 ])
      go s h (ok _, s') q = q
      go s h (err _, s') q =
          failure.at s' (ap (λ (d : Db). d.claims) q ∙ h.1, ap (λ (d : Db). d.decisions) q ∙ h.2)
