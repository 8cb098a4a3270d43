-- ===== src/Store/Writes.antt =====
-- What the methods of the repository adapters do to the tables of claims and decisions: each is a
-- triple over the claims and the decisions that the open transaction sees.
use laa_inquests_api.Prelude.{
  ℕ, ◌≡◌, refl, ap, Option, none, some, List, [], ◌∷◌, ◌++◌, map, Result, ok, err,
}
use laa_inquests_api.Text.{Text}
use laa_inquests_api.Enums.{
  ClaimStatus, ClaimDecisionStatus, ReasonCode, ActorType, HistoryEventReference,
}
use laa_inquests_api.Exceptions.{Exception, value_error}
use laa_inquests_api.PayInFull.{PayInFullClaim}
use laa_inquests_api.PaymentExtract.{PaymentExtractLine}
use laa_inquests_api.Records.{ClaimRow, ClaimDecision, EventData}
use laa_inquests_api.Store.{Db, Session, Env, Email}
use laa_inquests_api.Store.Tables.{with_status, set_status, add_decision}
use laa_inquests_api.Store.Actions.{Action, pure, raise, gets, guard, or_raise, call, write, send}
use laa_inquests_api.Store.Repository.{
  query, no_actor, create_claim_decision, create_claim_decision_amount, create_decision_reason,
  create_payment_extract, update_claim_status, create_history_event,
}
use laa_inquests_api.Store.Triples.{
  At, Runs, Runs-pure, Runs-bind, Runs-step, Runs-guard, Runs-call, Runs-for_each,
}

module _ (env : Env) (d : Db) (cs : List ClaimRow) (ds : List ClaimDecision) where
  -- An action that leaves the claims, the decisions and what is committed.
  abbrev pub Keeps : {A : Type 0} → Action A → Type 0
  Keeps m = Runs env d (At env d cs ds) m (λ _. At env d cs ds)

  module _ {A : Type 0} where
    pub Keeps-pure : (a : A) → Keeps (pure a)
    Keeps-pure a = Runs-pure env d a (λ s h. h)

    pub Keeps-raise : (e : Exception) → Keeps (raise {A = A} e)
    unfolding raise
    Keeps-raise e = Runs-step env d (raise e) (λ s h. h.0)

    pub Keeps-result : (r : Result Exception A) → Keeps (λ env s. (r, s))
    Keeps-result (ok a) = Runs-step env d _ (λ s h. h)
    Keeps-result (err e) = Runs-step env d _ (λ s h. h.0)

    pub Keeps-or_raise : (o : Option A) (e : Exception) → Keeps (or_raise o e)
    unfolding or_raise
    Keeps-or_raise none e = Keeps-raise e
    Keeps-or_raise (some a) e = Keeps-pure a

    pub Keeps-gets : (f : Db → A) → Keeps (gets f)
    unfolding gets
    Keeps-gets f = Runs-step env d (gets f) (λ s h. h)

    pub Keeps-query : (f : Db → A) → Keeps (query f)
    Keeps-query f =
        Runs-bind env d (call (λ (s : Session). s)) (λ _. gets f)
          (Runs-call env d cs ds (λ s. s) (λ s h. h)) (λ _. Keeps-gets f)

  pub Keeps-send : (email : Email) → Keeps (send email)
  unfolding send
  Keeps-send email = Runs-call env d cs ds (λ s. record s { sent = email ∷ s.sent }) (λ s h. h)

  pub Keeps-create_decision_reason :
      (id : ℕ) (code : ReasonCode) (why : Option Text) → Keeps (create_decision_reason id code why)
  unfolding create_decision_reason
  Keeps-create_decision_reason id code why = Runs-call env d cs ds _ (λ s h. h)

  pub Keeps-create_claim_decision_amount :
      (id : ℕ) (p : PayInFullClaim) → Keeps (create_claim_decision_amount id p)
  unfolding create_claim_decision_amount
  Keeps-create_claim_decision_amount id p = Runs-call env d cs ds _ (λ s h. h)

  pub Keeps-create_payment_extract :
      (id : ℕ) (lines : List PaymentExtractLine) → Keeps (create_payment_extract id lines)
  unfolding create_payment_extract
  Keeps-create_payment_extract id lines =
      Runs-for_each env d cs ds _ lines (λ l. Runs-call env d cs ds _ (λ s h. h))

  pub Keeps-create_history_event :
      (reference : HistoryEventReference) (actor : Option Text) (type : ActorType) (application : ℕ)
      (payload : EventData)
      → Keeps (create_history_event reference actor type application payload)
  unfolding create_history_event
  Keeps-create_history_event reference actor type application payload =
      Runs-step env d (create_history_event reference actor type application payload) λ s h.
        (Runs-bind env d (guard (no_actor actor) value_error) _
            (Runs-guard env d cs ds (no_actor actor) value_error)
            (λ _. Runs-call env d cs ds _ (λ s h. h))).at
          s h

  pub Runs-create_claim_decision :
      (id : ℕ) (status : ClaimDecisionStatus)
      → Runs env d
          (At env d cs ds)
          (create_claim_decision id status)
          (λ a s. ((a.claim_id ≡ id) × (a.decision ≡ status)) × At env d cs (ds ++ (a ∷ [])) s)
  unfolding create_claim_decision add_decision
  Runs-create_claim_decision id status = Runs-step env d (create_claim_decision id status) λ s h.
      let row : ClaimDecision = record {
        claim_decision_id = env.new_decision_id s.working;
        claim_id = id;
        decision = status;
        created_at = env.now;
      } in
      (Runs-bind env d (call (write (add_decision row))) (λ _. pure row)
          (Runs-call env d cs ds (write (add_decision row)) {Q = At env d cs (ds ++ (row ∷ []))}
            (λ s h. (h.0, h.1, ap (λ xs. xs ++ (row ∷ [])) h.2)))
          (λ _. Runs-pure env d row (λ s h. ((refl, refl), h)))).at
        s h

  pub Runs-update_claim_status :
      (id : ℕ) (status : ClaimStatus)
      → Runs env d
          (At env d cs ds)
          (update_claim_status id status)
          (λ _. At env d (map (with_status id status) cs) ds)
  unfolding update_claim_status set_status
  Runs-update_claim_status id status = Runs-bind env d _ _ (Keeps-query _) λ found.
      Runs-bind env d _ _ (Runs-guard env d cs ds _ _)
        (λ _. Runs-call env d cs ds _ (λ s h. (h.0, ap (map (with_status id status)) h.1, h.2)))
