-- ===== src/Store/Goes.antt =====
-- Runs in which no call of outside code fails: triples of a precondition, an action and a
-- postcondition, of actions that return.
use laa_inquests_api.Prelude.{
  ℕ, suc, Bool, true, false, not, ◌≡◌, ap, sym, ◌∙◌, Option, some, List, any, Result, ok, err, ◌==◌,
}
use laa_inquests_api.Text.{Text}
use laa_inquests_api.Enums.{
  ClaimStatus, ClaimDecisionStatus, ReasonCode, ActorType, HistoryEventReference,
}
use laa_inquests_api.Exceptions.{Exception, unexpected, value_error}
use laa_inquests_api.Records.{ClaimRow, EventData}
use laa_inquests_api.Store.{Db, Session, Env}
use laa_inquests_api.Store.Tables.{add_decision}
use laa_inquests_api.Store.Actions.{
  Action, pure, raise, gets, guard, or_raise, call, or_rollback, rollback, ◌>>=◌, ◌>>◌,
}
use laa_inquests_api.Store.Repository.{
  query, no_actor, create_claim_decision, create_decision_reason, update_claim_status,
  create_history_event,
}

-- No call of outside code fails.
abbrev pub IsCalm : Env → Type 0
IsCalm env = (n : ℕ) → env.fails n ≡ false

abbrev pub Ends : {A : Type 0} → (A → Session → Type 0) → Result Exception A × Session → Type 0
Ends Q (ok a, s) = Q a s
Ends Q (err e, s) = ⊥

module _ (env : Env) (calm : IsCalm env) where
  pub record Goes {A : Type 0} (P : Session → Type 0) (m : Action A) (Q : A → Session → Type 0)
      : Type 0 where
    pub at : (s : Session) → P s → Ends Q (m env s)

  module _ {A B : Type 0} {P : Session → Type 0} {Q : A → Session → Type 0}
      {R : B → Session → Type 0} where
    pub Goes-bind :
        (m : Action A) (f : A → Action B)
        → Goes P m Q
        → ((a : A) → Goes (Q a) (f a) R)
        → Goes P (m >>= f) R
    unfolding ◌>>=◌
    Goes-bind m f hm hf = record { at = λ s h. go (m env s) (hm.at s h) }
      where
        go :
            (x : Result Exception A × Session)
            → Ends Q x
            → Ends R (elim x.0 [ ok a ↦ f a env x.1 | err e ↦ (err e, x.1) ])
        go (ok a, s') q = (hf a).at s' q
        go (err e, s') q = absurd q

  module _ {B : Type 0} {P Q : Session → Type 0} {R : B → Session → Type 0} where
    pub Goes-then :
        {m : Action (Unit {0})} {k : Action B} → Goes P m (λ _. Q) → Goes Q k R → Goes P (m >> k) R
    Goes-then {m} {k} hm hk = Goes-bind m (λ _. k) hm (λ _. hk)

  module _ {A : Type 0} {P : Session → Type 0} {Q : A → Session → Type 0} where
    pub Goes-step : (m : Action A) → ((s : Session) → P s → Ends Q (m env s)) → Goes P m Q
    Goes-step m h = record { at = h }

    pub Goes-pure : (a : A) → ((s : Session) → P s → Q a s) → Goes P (pure a) Q
    unfolding pure
    Goes-pure a h = record { at = h }

    pub Goes-given : {F : Type 0} (m : Action A) → (F → Goes P m Q) → Goes (λ s. F × P s) m Q
    Goes-given m h = record { at = λ s k. (h k.0).at s k.1 }

    pub Goes-or_rollback : (m : Action A) → Goes P m Q → Goes P (or_rollback m) Q
    unfolding or_rollback
    Goes-or_rollback m h = record { at = λ s k. go (m env s) (h.at s k) }
      where
        go :
            (r : Result Exception A × Session)
            → Ends Q r
            → Ends Q (elim r.0 [ ok a ↦ (ok a, r.1) | err e ↦ (err e, rollback r.1) ])
        go (ok a, s') q = q
        go (err e, s') q = absurd q

  module _ {P : Session → Type 0} where
    pub Goes-guard : (test : Bool) (e : Exception) → test ≡ false → Goes P (guard test e) (λ _. P)
    unfolding guard
    Goes-guard test e h = record { at = λ s k. rw (h) k }

    pub Goes-call :
        (f : Session → Session) {Q : Session → Type 0}
        → ((s : Session) → P s → Q (f (record s { calls = suc s.calls })))
        → Goes P (call f) (λ _. Q)
    unfolding call
    Goes-call f keep = record { at = λ s k. rw (calm s.calls) (keep s k) }

  pub Goes-create_history_event :
      (reference : HistoryEventReference) (actor : Option Text) (type : ActorType) (application : ℕ)
      (payload : EventData)
      → no_actor actor ≡ false
      → Goes
          (λ _. Unit)
          (create_history_event reference actor type application payload)
          (λ _ _. Unit)
  unfolding create_history_event
  Goes-create_history_event reference actor type application payload h =
      Goes-step (create_history_event reference actor type application payload) λ s k.
        (Goes-bind (guard (no_actor actor) value_error) _
            (Goes-guard {P = λ _. Unit} (no_actor actor) value_error h)
            (λ _. Goes-call _ (λ s k. k))).at
          s k

  pub Goes-found :
      {A B : Type 0} {P : Session → Type 0} {R : B → Session → Type 0} (o : Option A) (a : A)
      (e : Exception) (f : A → Action B)
      → o ≡ some a
      → Goes P (f a) R
      → Goes P (or_raise o e >>= f) R
  unfolding or_raise pure raise ◌>>=◌
  Goes-found o a e f h g = record { at = λ s k. rw (h) (g.at s k) }

  -- What a query reads of a transaction that sees `w`.
  pub Goes-query :
      {A : Type 0} (f : Db → A) (w : Db)
      → Goes (λ s. s.working ≡ w) (query f) (λ a s. (f w ≡ a) × (s.working ≡ w))
  unfolding gets
  Goes-query f w =
      Goes-bind (call (λ (s : Session). s)) (λ _. gets f) (Goes-call (λ s. s) (λ s h. h))
        (λ _. Goes-step (gets f) (λ s h. (ap f (sym h), h)))

  module _ (cs : List ClaimRow) where
    abbrev pub Sees : Session → Type 0
    Sees s = s.working.claims ≡ cs

    pub Goes-create_claim_decision :
        (id : ℕ) (status : ClaimDecisionStatus)
        → Goes Sees (create_claim_decision id status) (λ _. Sees)
    unfolding create_claim_decision add_decision
    Goes-create_claim_decision id status = Goes-step (create_claim_decision id status) λ s k.
        (Goes-bind {P = Sees} (call _) (λ _. pure _) (Goes-call _ {Q = Sees} (λ s h. h))
            (λ _. Goes-pure _ (λ s h. h))).at
          s k

    pub Goes-create_decision_reason :
        (id : ℕ) (code : ReasonCode) (why : Option Text)
        → Goes Sees (create_decision_reason id code why) (λ _. Sees)
    unfolding create_decision_reason
    Goes-create_decision_reason id code why = Goes-call _ (λ s h. h)

    -- The status of a claim that is there.
    pub Goes-update_claim_status :
        (id : ℕ) (status : ClaimStatus)
        → any (λ (c : ClaimRow). c.claim_id == id) cs ≡ true
        → Goes Sees (update_claim_status id status) (λ _ _. Unit)
    unfolding update_claim_status gets
    Goes-update_claim_status id status h =
        Goes-bind _ _
          (Goes-bind (call (λ (s : Session). s)) (λ _. gets _)
            (Goes-call (λ s. s) {Q = Sees} (λ s k. k))
            (λ _.
              Goes-step {Q = λ found _. found ≡ true} _
                (λ s k. ap (λ rows. any (λ (c : ClaimRow). c.claim_id == id) rows) k ∙ h)))
          λ found.
            Goes-bind _ _
              (Goes-step {Q = λ _ _. Unit} _
                (λ s e. (Goes-guard {P = λ _. Unit} (not found) unexpected (ap not e)).at s tt))
              (λ _. Goes-call _ (λ s k. k))
