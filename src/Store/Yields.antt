-- ===== src/Store/Yields.antt =====
-- Triples for actions that may raise after they have committed.
use laa_inquests_api.Prelude.{suc, ◌≡◌, Bool, true, false, ok, err, Result, if◌then◌else◌}
use laa_inquests_api.Exceptions.{Exception, unexpected}
use laa_inquests_api.Store.{Db, Session, Env}
use laa_inquests_api.Store.Actions.{Action, pure, call, or_rollback, reload, rollback, ◌>>=◌}
use laa_inquests_api.Store.Triples.{Outcome, Runs}

-- An action that may raise after it has committed: `E` is what then holds.
module _ (env : Env) where
  abbrev pub Ending :
      {A : Type 0}
      → (A → Session → Type 0)
      → (Session → Type 0)
      → Result Exception A × Session
      → Type 0
  Ending Q E (ok a, s) = Q a s
  Ending Q E (err e, s) = E s

  pub record Yields {A : Type 0} (P : Session → Type 0) (m : Action A) (Q : A → Session → Type 0)
      (E : Session → Type 0) : Type 0 where
    pub at : (s : Session) → P s → Ending Q E (m env s)

  module _ {A B : Type 0} {P : Session → Type 0} {Q : A → Session → Type 0}
      {R : B → Session → Type 0} {E : Session → Type 0} where
    -- Steps that commit nothing, before such an action.
    pub Yields-after :
        (d : Db) (m : Action A) (f : A → Action B)
        → Runs env d P m Q
        → ((s : Session) → s.committed ≡ d → E s)
        → ((a : A) → Yields (Q a) (f a) R E)
        → Yields P (m >>= f) R E
    unfolding ◌>>=◌
    Yields-after d m f hm early hf = record { at = λ s h. go (m env s) (hm.at s h) }
      where
        go :
            (x : Result Exception A × Session)
            → Outcome env d Q x
            → Ending R E (elim x.0 [ ok a ↦ f a env x.1 | err e ↦ (err e, x.1) ])
        go (ok a, s') q = (hf a).at s' q
        go (err e, s') q = early s' q

  module _ {A B : Type 0} {P : Session → Type 0} {Q : A → Session → Type 0}
      {R : B → Session → Type 0} {E : Session → Type 0} where
    pub Yields-bind :
        (m : Action A) (f : A → Action B)
        → Yields P m Q E
        → ((a : A) → Yields (Q a) (f a) R E)
        → Yields P (m >>= f) R E
    unfolding ◌>>=◌
    Yields-bind m f hm hf = record { at = λ s h. go (m env s) (hm.at s h) }
      where
        go :
            (x : Result Exception A × Session)
            → Ending Q E x
            → Ending R E (elim x.0 [ ok a ↦ f a env x.1 | err e ↦ (err e, x.1) ])
        go (ok a, s') q = (hf a).at s' q
        go (err e, s') q = q

  module _ {A : Type 0} {P : Session → Type 0} {Q : A → Session → Type 0}
      {E : Session → Type 0} where
    pub Yields-of :
        (d : Db) (m : Action A)
        → Runs env d P m Q
        → ((s : Session) → s.committed ≡ d → E s)
        → Yields P m Q E
    Yields-of d m hm early = record { at = λ s h. go (m env s) (hm.at s h) }
      where
        go : (x : Result Exception A × Session) → Outcome env d Q x → Ending Q E x
        go (ok a, s') q = q
        go (err e, s') q = early s' q

    pub Yields-weaken :
        {R : A → Session → Type 0} {F : Session → Type 0} {m : Action A}
        → ((a : A) (s : Session) → Q a s → R a s)
        → ((s : Session) → E s → F s)
        → Yields P m Q E
        → Yields P m R F
    Yields-weaken {R} {F} {m} q e h = record { at = λ s k. go (m env s) (h.at s k) }
      where
        go : (x : Result Exception A × Session) → Ending Q E x → Ending R F x
        go (ok a, s') k = q a s' k
        go (err _, s') k = e s' k

    pub Yields-given :
        {F : Type 0} (m : Action A) → (F → Yields P m Q E) → Yields (λ s. F × P s) m Q E
    Yields-given m h = record { at = λ s k. (h k.0).at s k.1 }

  module _ {A : Type 0} {P : Session → Type 0} {E : Session → Type 0} where
    pub Yields-pure :
        {Q : A → Session → Type 0} (a : A) → ((s : Session) → P s → Q a s) → Yields P (pure a) Q E
    unfolding pure
    Yields-pure a h = record { at = h }

    pub Yields-if :
        {Q : A → Session → Type 0} (test : Bool) {m k : Action A}
        → Yields P m Q E
        → Yields P k Q E
        → Yields P (if test then m else k) Q E
    Yields-if true hm hk = hm
    Yields-if false hm hk = hk

  module _ {P E : Session → Type 0} where
    -- What does not depend on the number of calls is kept by a read, and a failing one ends with it.
    pub Yields-reload :
        ((s : Session) → P s → P (record s { calls = suc s.calls }))
        → ((s : Session) → P s → E (record s { calls = suc s.calls }))
        → Yields P reload (λ _. P) E
    unfolding call
    Yields-reload keep left = record { at = λ s h. go s (env.fails s.calls) h }
      where
        go :
            (s : Session) (failed : Bool)
            → P s
            → Ending {A = Unit {0}}
                (λ _. P)
                E
                (if failed
                  then (err unexpected, record s { calls = suc s.calls })
                  else (ok tt, record s { calls = suc s.calls }))
        go s true h = left s h
        go s false h = keep s h

  module _ {A : Type 0} {P E : Session → Type 0} {Q : A → Session → Type 0} where
    pub Yields-or_rollback :
        (m : Action A)
        → ((s : Session) → E s → E (rollback s))
        → Yields P m Q E
        → Yields P (or_rollback m) Q E
    unfolding or_rollback
    Yields-or_rollback m keep h = record { at = λ s k. go (m env s) (h.at s k) }
      where
        go :
            (r : Result Exception A × Session)
            → Ending Q E r
            → Ending Q E (elim r.0 [ ok a ↦ (ok a, r.1) | err e ↦ (err e, rollback r.1) ])
        go (ok a, s') q = q
        go (err e, s') q = keep s' q
