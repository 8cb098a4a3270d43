-- ===== src/Store/Exact.antt =====
-- What an action leaves in the whole database: triples whose states fix what is committed and what
-- the open transaction sees.
use laa_inquests_api.Prelude.{
  ℕ, suc, ◌≡◌, refl, ap, Bool, true, false, ◌⊎◌, inl, inr, Option, none, some, [], ◌∷◌, ◌++◌, ok,
  err, if◌then◌else◌,
}
use laa_inquests_api.Text.{Text}
use laa_inquests_api.Enums.{ActorType, HistoryEventReference}
use laa_inquests_api.Exceptions.{Exception, unexpected, value_error}
use laa_inquests_api.Records.{EventData}
use laa_inquests_api.Store.{Db, Session, Env, Email}
use laa_inquests_api.Store.Actions.{
  modify, pure, raise, guard, or_raise, call, send, write, gets, commit, ◌>>◌,
}
use laa_inquests_api.Store.Repository.{
  query, update, create_history_event, no_actor, actor_name, is_system,
}
use laa_inquests_api.Store.Yields.{Yields, Yields-after, Yields-of}
use laa_inquests_api.Store.Triples.{Outcome, Runs, Runs-bind, Runs-weaken}

-- A new event at the end of the history.
abbrev pub add_event :
    Env → HistoryEventReference → Option Text → ActorType → ℕ → EventData → Db → Db
add_event env reference actor type application payload db = record db {
  history =
      db.history
      ++ (record {
        event_reference = reference;
        timestamp = env.now;
        actor = actor_name actor;
        actor_type = type;
        entra_user_object_id = if is_system type then none else env.user_object_id;
        actor_email_address = if is_system type then none else env.user_email_address;
        application_id = application;
        event_data = payload;
      }
          ∷ []);
}

module _ (env : Env) (d : Db) where
  -- `d` is committed, and the open transaction sees `w`.
  abbrev pub Open : Db → Session → Type 0
  Open w s = (s.committed ≡ d) × (s.working ≡ w)

  module _ (w : Db) where
    pub Open-call :
        (f : Session → Session) {Q : Session → Type 0}
        → ((s : Session) → Open w s → Q (f s))
        → Runs env d (Open w) (call f) (λ _. Q)
    unfolding call
    Open-call f {Q} keep = record { at = λ s h. go s (env.fails s.calls) h }
      where
        go :
            (s : Session) (failed : Bool)
            → Open w s
            → Outcome env d {A = Unit {0}}
                (λ _. Q)
                (if failed
                  then (err unexpected, record s { calls = suc s.calls })
                  else (ok tt, f (record s { calls = suc s.calls })))
        go s true h = h.0
        go s false h = keep (record s { calls = suc s.calls }) h

    -- A call that leaves the data alone.
    pub Open-outside : Runs env d (Open w) (call (λ (s : Session). s)) (λ _. Open w)
    Open-outside = Open-call (λ s. s) (λ s h. h)

    pub Open-send : (email : Email) → Runs env d (Open w) (send email) (λ _. Open w)
    unfolding send
    Open-send email = Open-call (λ (s : Session). record s { sent = email ∷ s.sent }) (λ s h. h)

    pub Open-update : (f : Db → Db) → Runs env d (Open w) (update f) (λ _. Open (f w))
    Open-update f = Open-call (write f) (λ s h. (h.0, ap f h.1))

    pub Open-modify : (f : Db → Db) → Runs env d (Open w) (modify f) (λ _. Open (f w))
    unfolding modify
    Open-modify f = record { at = λ s h. (h.0, ap f h.1) }

    pub Open-query :
        {A : Type 0} (f : Db → A) → Runs env d (Open w) (query f) (λ a s. (a ≡ f w) × Open w s)
    unfolding gets
    Open-query f =
        Runs-bind env d (call (λ (s : Session). s)) (λ _. gets f) Open-outside
          (λ _. record { at = λ s h. (ap f h.1, h) })

    pub Open-guard :
        (test : Bool) (e : Exception)
        → Runs env d (Open w) (guard test e) (λ _ s. (test ≡ false) × Open w s)
    unfolding guard
    Open-guard true e = record { at = λ s h. h.0 }
    Open-guard false e = record { at = λ s h. (refl, h) }

    pub Open-raise :
        {A : Type 0} {Q : A → Session → Type 0} (e : Exception) → Runs env d (Open w) (raise e) Q
    unfolding raise
    Open-raise e = record { at = λ s h. h.0 }

    pub Open-or_raise :
        {A : Type 0} (o : Option A) (e : Exception)
        → Runs env d (Open w) (or_raise o e) (λ a s. (o ≡ some a) × Open w s)
    unfolding or_raise pure raise
    Open-or_raise none e = record { at = λ s h. h.0 }
    Open-or_raise (some a) e = record { at = λ s h. (refl, h) }

    pub Open-create_history_event :
        (reference : HistoryEventReference) (actor : Option Text) (type : ActorType)
        (application : ℕ) (payload : EventData)
        → Runs env d
            (Open w)
            (create_history_event reference actor type application payload)
            (λ _. Open (add_event env reference actor type application payload w))
    unfolding create_history_event
    Open-create_history_event reference actor type application payload = record {
      at =
          (Runs-bind env d (guard (no_actor actor) value_error)
            (λ _. update (add_event env reference actor type application payload))
            (Open-guard (no_actor actor) value_error)
            (λ _. record {
              at = λ s h.
                  (Open-update (add_event env reference actor type application payload)).at s h.1;
            })).at;
    }

module _ (env : Env) where
  -- What a transaction may end with: nothing committed, or all of it.
  abbrev pub NothingOrAll : Db → Db → Session → Type 0
  NothingOrAll d w s = (s.committed ≡ d) ⊎ (s.committed ≡ w)

  pub Open-commit : (d w : Db) → Runs env d (Open env d w) commit (λ _. Open env w w)
  unfolding commit
  Open-commit d w =
      Open-call env d w (λ (s : Session). record s { committed = s.working }) (λ s h. (h.1, h.1))

  module _ (d w : Db) where
    pub Yields-commit :
        Yields env (Open env d w) commit (λ _ s. s.committed ≡ w) (λ s. s.committed ≡ d)
    Yields-commit =
        Yields-of env d commit (Runs-weaken env d (λ _ s h. h.0) (Open-commit d w)) (λ s h. h)

    -- Two commits, of which the second may fail.
    pub Yields-commit_twice :
        Yields env (Open env d w) (commit >> commit) (λ _ s. s.committed ≡ w) (NothingOrAll d w)
    Yields-commit_twice =
        Yields-after env d commit (λ _. commit) (Open-commit d w) (λ s h. inl h)
          λ _.
            Yields-of env w commit (Runs-weaken env w (λ _ s h. h.0) (Open-commit w w))
              (λ s h. inr h)
