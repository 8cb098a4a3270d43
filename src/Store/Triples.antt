-- ===== src/Store/Triples.antt =====
-- What an action does to the tables of claims and decisions, and to what is committed: triples of
-- a precondition, an action and a postcondition for its return; of an action that raises they say
-- that it has committed nothing.
use laa_inquests_api.Prelude.{
  suc, Bool, true, false, ◌≡◌, refl, Option, none, some, List, [], ◌∷◌, ok, err, Result,
  if◌then◌else◌,
}
use laa_inquests_api.Exceptions.{Exception, unexpected}
use laa_inquests_api.Records.{ClaimRow, ClaimDecision}
use laa_inquests_api.Store.{Db, Session, Env}
use laa_inquests_api.Store.Actions.{
  Action, pure, raise, guard, or_raise, call, for_each, commit, or_rollback, rollback, ◌>>=◌, ◌>>◌,
}

-- No write is open, and these are the committed claims and decisions.
abbrev pub Stage : List ClaimRow → List ClaimDecision → Session → Type 0
Stage cs ds s = (s.working ≡ s.committed) × (s.committed.claims ≡ cs) × (s.committed.decisions ≡ ds)

module _ (env : Env) (d : Db) where
  -- The committed data is `d`, and the open transaction sees these claims and decisions.
  abbrev pub At : List ClaimRow → List ClaimDecision → Session → Type 0
  At cs ds s = (s.committed ≡ d) × (s.working.claims ≡ cs) × (s.working.decisions ≡ ds)

  abbrev pub Outcome : {A : Type 0} → (A → Session → Type 0) → Result Exception A × Session → Type 0
  Outcome Q (ok a, s) = Q a s
  Outcome Q (err e, s) = s.committed ≡ d

  pub record Runs {A : Type 0} (P : Session → Type 0) (m : Action A) (Q : A → Session → Type 0)
      : Type 0 where
    pub at : (s : Session) → P s → Outcome Q (m env s)

  module _ {A : Type 0} {P : Session → Type 0} {Q : A → Session → Type 0} where
    pub Runs-pure : (a : A) → ((s : Session) → P s → Q a s) → Runs P (pure a) Q
    unfolding pure
    Runs-pure a h = record { at = h }

    pub Runs-weaken :
        {R : A → Session → Type 0} {m : Action A}
        → ((a : A) (s : Session) → Q a s → R a s)
        → Runs P m Q
        → Runs P m R
    Runs-weaken {R} {m} weaken h = record { at = λ s k. go (m env s) (h.at s k) }
      where
        go : (r : Result Exception A × Session) → Outcome Q r → Outcome R r
        go (ok a, s') q = weaken a s' q
        go (err e, s') q = q

  module _ {A B : Type 0} {P : Session → Type 0} {Q : A → Session → Type 0}
      {R : B → Session → Type 0} where
    pub Runs-bind :
        (m : Action A) (f : A → Action B)
        → Runs P m Q
        → ((a : A) → Runs (Q a) (f a) R)
        → Runs P (m >>= f) R
    unfolding ◌>>=◌
    Runs-bind m f hm hf = record { at = λ s h. go (m env s) (hm.at s h) }
      where
        go :
            (x : Result Exception A × Session)
            → Outcome Q x
            → Outcome R (elim x.0 [ ok a ↦ f a env x.1 | err e ↦ (err e, x.1) ])
        go (ok a, s') q = (hf a).at s' q
        go (err e, s') q = q

  module _ {A : Type 0} {Q : A → Session → Type 0} where
    pub Runs-exists :
        {X : Type 0} {P' : X → Session → Type 0} (m : Action A)
        → ((x : X) → Runs (P' x) m Q)
        → Runs (λ s. (x : X) × P' x s) m Q
    Runs-exists m h = record { at = λ s k. (h k.0).at s k.1 }

  module _ {B : Type 0} {P Q : Session → Type 0} {R : B → Session → Type 0} where
    pub Runs-then :
        {m : Action (Unit {0})} {k : Action B} → Runs P m (λ _. Q) → Runs Q k R → Runs P (m >> k) R
    Runs-then {m} {k} hm hk = Runs-bind m (λ _. k) hm (λ _. hk)

  -- A fact that the precondition carries may be used to prove the triple.
  module _ {A : Type 0} {P : Session → Type 0} {Q : A → Session → Type 0} where
    pub Runs-given : {F : Type 0} (m : Action A) → (F → Runs P m Q) → Runs (λ s. F × P s) m Q
    Runs-given m h = record { at = λ s k. (h k.0).at s k.1 }

    pub Runs-if :
        (test : Bool) {m k : Action A} → Runs P m Q → Runs P k Q → Runs P (if test then m else k) Q
    Runs-if true hm hk = hm
    Runs-if false hm hk = hk

    -- The outcome of a step that is no transaction of its own may be given directly.
    pub Runs-step : (m : Action A) → ((s : Session) → P s → Outcome Q (m env s)) → Runs P m Q
    Runs-step m h = record { at = h }

  module _ {A : Type 0} {P : Session → Type 0} {Q : A → Session → Type 0} where
    pub Runs-or_rollback : (m : Action A) → Runs P m Q → Runs P (or_rollback m) Q
    unfolding or_rollback
    Runs-or_rollback m h = record { at = λ s k. go (m env s) (h.at s k) }
      where
        go :
            (r : Result Exception A × Session)
            → Outcome Q r
            → Outcome Q (elim r.0 [ ok a ↦ (ok a, r.1) | err e ↦ (err e, rollback r.1) ])
        go (ok a, s') q = q
        go (err e, s') q = q

  module _ (cs : List ClaimRow) (ds : List ClaimDecision) where
    pub Runs-guard : (test : Bool) (e : Exception) → Runs (At cs ds) (guard test e) (λ _. At cs ds)
    unfolding guard
    Runs-guard true e = record { at = λ s h. h.0 }
    Runs-guard false e = record { at = λ s h. h }

    -- A guard that lets an action go on has found its test false.
    pub Runs-check :
        (test : Bool) (e : Exception)
        → Runs (At cs ds) (guard test e) (λ _ s. (test ≡ false) × At cs ds s)
    unfolding guard
    Runs-check true e = record { at = λ s h. h.0 }
    Runs-check false e = record { at = λ s h. (refl, h) }

    pub Runs-or_raise :
        {A : Type 0} (o : Option A) (e : Exception)
        → Runs (At cs ds) (or_raise o e) (λ a s. (o ≡ some a) × At cs ds s)
    unfolding or_raise pure raise
    Runs-or_raise none e = record { at = λ s h. h.0 }
    Runs-or_raise (some a) e = record { at = λ s h. (refl, h) }

    -- A call whose effect leads to `Q`.
    pub Runs-call :
        (f : Session → Session) {Q : Session → Type 0}
        → ((s : Session) → At cs ds s → Q (f s))
        → Runs (At cs ds) (call f) (λ _. Q)
    unfolding call
    Runs-call f {Q} keep = record { at = λ s h. go s (env.fails s.calls) h }
      where
        go :
            (s : Session) (failed : Bool)
            → At cs ds s
            → Outcome
                (λ _. Q)
                (if failed
                  then (err unexpected, record s { calls = suc s.calls })
                  else (ok tt, f (record s { calls = suc s.calls })))
        go s true h = h.0
        go s false h = keep (record s { calls = suc s.calls }) h

    -- A commit keeps what the open transaction sees.
    pub Runs-commit : Runs (At cs ds) commit (λ _. Stage cs ds)
    unfolding commit
    Runs-commit =
        Runs-call (λ s. record s { committed = s.working }) {Q = Stage cs ds}
          (λ s h. (refl, h.1, h.2))

    pub Runs-for_each :
        {A : Type 0} (f : A → Action (Unit {0})) (xs : List A)
        → ((x : A) → Runs (At cs ds) (f x) (λ _. At cs ds))
        → Runs (At cs ds) (for_each f xs) (λ _. At cs ds)
    unfolding for_each
    Runs-for_each f [] h = record { at = λ s k. k }
    Runs-for_each f (x ∷ xs) h = record {
      at = λ s k. go (f x env s) (Runs-for_each f xs h) ((h x).at s k);
    }
      where
        go :
            (r : Result Exception (Unit {0}) × Session)
            → Runs (At cs ds) (for_each f xs) (λ _. At cs ds)
            → Outcome {A = Unit {0}} (λ _. At cs ds) r
            → Outcome {A = Unit {0}}
                (λ _. At cs ds)
                (elim r.0 [ ok _ ↦ for_each f xs env r.1 | err e ↦ (err e, r.1) ])
        go (ok _, s') rest q = rest.at s' q
        go (err e, s') rest q = q
