-- ===== src/Store/History.antt =====
-- Which events the use cases under app/use_cases/ write, and rules for actions that add only such
-- events to the history.
use laa_inquests_api.Prelude.{
  ℕ, suc, Bool, true, false, ◌≡◌, sym, subst, Option, none, some, List, [], ◌∷◌, ◌++◌, ok, err,
  Result, All, String, if◌then◌else◌,
}
use laa_inquests_api.Text.{Text}
use laa_inquests_api.Enums.{
  ClaimType, ReasonForRefusal, ActorType, HistoryEventReference, case_note_added,
  application_submitted, application_assessment_completed, certificate_created,
  interested_party_updated, claim_assessment_completed, poa_auto_approved, poa_auto_rejected,
  application_submission_confirmation, application_granted_email, application_granted_letter,
  application_refused, claim_submission_confirmation, claim_approved_email, claim_rejected_email,
}
use laa_inquests_api.PayInFull.{PayInFullClaim}
use laa_inquests_api.Exceptions.{Exception, unexpected, value_error}
use laa_inquests_api.Records.{
  EventData, no_data, note_data, grant_data, refusal_data, certificate_data, letter_data,
  public_bodies_data, submission_data, email_data, claim_reference_data, pay_in_full_data,
  rejection_data, HistoryEvent,
}
use laa_inquests_api.Store.{Db, Session, Env, Email}
use laa_inquests_api.Store.Actions.{
  Action, modify, pure, raise, gets, guard, or_raise, call, send, for_each, commit, or_rollback,
  or_else, reload, roll_back, rollback, ◌>>=◌, write,
}
use laa_inquests_api.Store.Repository.{query, update, create_history_event, no_actor}

-- The kind of data that goes with each reference.
pub data Written : HistoryEventReference → EventData → Type 0 where
  note : (t : Text) → Written case_note_added (note_data t)
  submitted : Written application_submitted no_data
  submission_confirmed : (t : Text) → Written application_submission_confirmation (email_data t)
  granted : Written application_assessment_completed grant_data
  certified : (t : Text) → Written certificate_created (certificate_data t)
  grant_emailed : (t : Text) → Written application_granted_email (email_data t)
  grant_posted :
      (a : List (String × Option Text)) → Written application_granted_letter (letter_data a)
  refused :
      (r : ReasonForRefusal) (t : Text)
      → Written application_assessment_completed (refusal_data r t)
  refusal_emailed : (t : Text) → Written application_refused (email_data t)
  parties : (old new : List Text) → Written interested_party_updated (public_bodies_data old new)
  claimed :
      (c : ClaimType) (t : Text)
      → Written HistoryEventReference.claim_submitted (submission_data c t)
  claim_confirmed : (t : Text) → Written claim_submission_confirmation (email_data t)
  auto_approved : (t : Text) → Written poa_auto_approved (claim_reference_data t)
  auto_rejected : (t : Text) → Written poa_auto_rejected (claim_reference_data t)
  paid :
      (c : ClaimType) (t : Text) (a : PayInFullClaim)
      → Written claim_assessment_completed (pay_in_full_data c t a)
  paid_emailed : (t : Text) → Written claim_approved_email (email_data t)
  approval_emailed : (t : Text) → Written claim_approved_email (claim_reference_data t)
  rejected :
      (c : ClaimType) (r t : Text) → Written claim_assessment_completed (rejection_data c r t)
  rejection_emailed : (t : Text) → Written claim_rejected_email (email_data t)

abbrev pub IsWritten : HistoryEvent → Type 0
IsWritten e = Written e.event_reference e.event_data

-- The history holds such events only, both committed and in the open transaction.
pub record Sound (s : Session) : Type 0 where
  pub committed : All IsWritten s.committed.history
  pub working : All IsWritten s.working.history

abbrev pub SoundAfter : {A : Type 0} → Result Exception A × Session → Type 0
SoundAfter (r, s) = Sound s

pub record Records {A : Type 0} (m : Action A) : Type 0 where
  pub at : (env : Env) (s : Session) → Sound s → Sound (m env s).1

All-append {ℓ κ} :
    {A : Type ℓ} (P : A → Type κ) (xs ys : List A) → All P xs → All P ys → All P (xs ++ ys)
All-append P [] ys hx hy = hy
All-append P (x ∷ xs) ys hx hy = (hx.0, All-append P xs ys hx.1 hy)

module _ {A : Type 0} where
  pub Records-pure : (a : A) → Records (pure a)
  unfolding pure
  Records-pure a = record { at = λ env s h. h }

  pub Records-raise : (e : Exception) → Records {A = A} (raise e)
  unfolding raise
  Records-raise e = record { at = λ env s h. h }

  pub Records-gets : (f : Db → A) → Records (gets f)
  unfolding gets
  Records-gets f = record { at = λ env s h. h }

  pub Records-or_raise : (o : Option A) (e : Exception) → Records (or_raise o e)
  unfolding or_raise pure raise
  Records-or_raise none e = record { at = λ env s h. h }
  Records-or_raise (some a) e = record { at = λ env s h. h }

  pub Records-if :
      (test : Bool) {m k : Action A} → Records m → Records k → Records (if test then m else k)
  Records-if true hm hk = hm
  Records-if false hm hk = hk

  pub Records-or_rollback : (m : Action A) → Records m → Records (or_rollback m)
  unfolding or_rollback
  Records-or_rollback m h = record { at = λ env s k. go (m env s) (h.at env s k) }
    where
      go :
          (r : Result Exception A × Session)
          → SoundAfter r
          → SoundAfter {A = A} (elim r.0 [ ok a ↦ (ok a, r.1) | err e ↦ (err e, rollback r.1) ])
      go (ok a, s') q = q
      go (err e, s') q = record { committed = q.committed; working = q.committed }

module _ {A B : Type 0} where
  pub Records-bind :
      (m : Action A) (f : A → Action B) → Records m → ((a : A) → Records (f a)) → Records (m >>= f)
  unfolding ◌>>=◌
  Records-bind m f hm hf = record { at = λ env s h. go env (m env s) (hm.at env s h) }
    where
      go :
          (env : Env) (x : Result Exception A × Session)
          → SoundAfter x
          → SoundAfter {A = B} (elim x.0 [ ok a ↦ f a env x.1 | err e ↦ (err e, x.1) ])
      go env (ok a, s') q = (hf a).at env s' q
      go env (err e, s') q = q

pub Records-guard : (test : Bool) (e : Exception) → Records (guard test e)
unfolding guard
Records-guard test e = record { at = λ env s h. h }

-- A call whose effect keeps the history sound.
pub Records-call :
    (f : Session → Session) → ((s : Session) → Sound s → Sound (f s)) → Records (call f)
unfolding call
Records-call f keep = record { at = λ env s h. go s (env.fails s.calls) h }
  where
    go :
        (s : Session) (failed : Bool)
        → Sound s
        → SoundAfter {A = Unit {0}} (
            if failed
            then (err unexpected, record s { calls = suc s.calls })
            else (ok tt, f (record s { calls = suc s.calls })))
    go s true h = record { committed = h.committed; working = h.working }
    go s false h =
        keep (record s { calls = suc s.calls })
          (record { committed = h.committed; working = h.working })

-- `for x in xs: f(x)`
pub Records-for_each :
    {A : Type 0} (f : A → Action (Unit {0})) (xs : List A)
    → ((x : A) → Records (f x))
    → Records (for_each f xs)
unfolding for_each
Records-for_each f [] h = record { at = λ env s k. k }
Records-for_each f (x ∷ xs) h = record {
  at = λ env s k. go env (Records-for_each f xs h) (f x env s) ((h x).at env s k);
}
  where
    go :
        (env : Env)
        → Records (for_each f xs)
        → (r : Result Exception (Unit {0}) × Session) → SoundAfter r
        → SoundAfter {A = Unit {0}}
            (elim r.0 [ ok _ ↦ for_each f xs env r.1 | err e ↦ (err e, r.1) ])
    go env rest (ok _, s') q = rest.at env s' q
    go env rest (err e, s') q = q

-- A statement that only reads, and one that changes other tables.
pub Records-query : {A : Type 0} (f : Db → A) → Records (query f)
Records-query f =
    Records-bind (call (λ (s : Session). s)) (λ _. gets f) (Records-call (λ s. s) (λ s h. h))
      (λ _. Records-gets f)

pub Records-update : (f : Db → Db) → ((db : Db) → (f db).history ≡ db.history) → Records (update f)
Records-update f same = Records-call (write f) λ s h. record {
  committed = h.committed;
  working = subst (All IsWritten) (sym (same s.working)) h.working;
}

pub Records-modify : (f : Db → Db) → ((db : Db) → (f db).history ≡ db.history) → Records (modify f)
unfolding modify
Records-modify f same = record {
  at = λ env s h. record {
    committed = h.committed;
    working = subst (All IsWritten) (sym (same s.working)) h.working;
  };
}

pub Records-send : (email : Email) → Records (send email)
unfolding send
Records-send email =
    Records-call (λ (s : Session). record s { sent = email ∷ s.sent })
      λ s h. record { committed = h.committed; working = h.working }

pub Records-commit : Records commit
unfolding commit
Records-commit =
    Records-call (λ (s : Session). record s { committed = s.working })
      λ s h. record { committed = h.working; working = h.working }

-- An event of data that goes with its reference.
pub Records-create_history_event :
    (reference : HistoryEventReference) (actor : Option Text) (type : ActorType) (application : ℕ)
    (payload : EventData)
    → Written reference payload
    → Records (create_history_event reference actor type application payload)
unfolding create_history_event
Records-create_history_event reference actor type application payload w = record {
  at = λ env.
      (Records-bind (guard (no_actor actor) value_error) _
          (Records-guard (no_actor actor) value_error)
          (λ _. Records-call _ λ s h. record {
            committed = h.committed;
            working = All-append IsWritten s.working.history _ h.working (w, tt);
          })).at
        env;
}

pub ruleset records_rules = (
  Records-pure, Records-raise, Records-gets, Records-or_raise, Records-if, Records-or_rollback,
  Records-bind, Records-guard, Records-for_each, Records-query, Records-send, Records-commit,
  Records-create_history_event,
)

pub Records-reload : Records reload
Records-reload =
    Records-call (λ (s : Session). s) λ s h. record { committed = h.committed; working = h.working }

pub Records-roll_back : Records roll_back
Records-roll_back = record {
  at = λ env s h. record { committed = h.committed; working = h.committed };
}

-- `try` blocks that go on after a failure.
module _ {A : Type 0} (m : Action (Unit {0})) (h : Records m) where
  pub Records-or_else :
      (x : A) (handler : Action A) → Records handler → Records (or_else m x handler)
  Records-or_else x handler k = record { at = λ env s w. go env (m env s) (h.at env s w) }
    where
      go :
          (env : Env) (r : Result Exception (Unit {0}) × Session)
          → SoundAfter r
          → SoundAfter {A = A} (elim r.0 [ ok _ ↦ (ok x, r.1) | err _ ↦ handler env r.1 ])
      go env (ok _, s') q = q
      go env (err _, s') q = k.at env s' q
