-- ===== src/UseCases/Applications/Outcome.antt =====
-- The refusal of an application, app/use_cases/refuse_decision.py, and the change of the database
-- that it stands for; and what it shares with the grant.
use laa_inquests_api.Prelude.{◌≡◌, refl, sym, ◌∙◌, ◌⊎◌, inl, inr, some, Result, ok, err}
use laa_inquests_api.Text.{Text}
use laa_inquests_api.Enums.{
  caseworker, system, HistoryEventReference, application_assessment_completed,
}
use laa_inquests_api.Exceptions.{Exception, application_not_found, refuse_decision_error}
use laa_inquests_api.Application.{Application, ApplicationProceeding}
use laa_inquests_api.Applications.Requests.{Refusal}
use laa_inquests_api.Applications.Repository.{
  update_decision, change_application, decide_application,
}
use laa_inquests_api.Records.{EventData, refusal_data, email_data}
use laa_inquests_api.Store.{Db, Session, Env}
use laa_inquests_api.Store.Tables.{application_by_laa_reference}
use laa_inquests_api.Store.Actions.{Action, commit, or_raise, rollback, ◌>>=◌, ◌>>◌}
use laa_inquests_api.Store.Repository.{get_application_by_laa_reference, create_history_event}
use laa_inquests_api.Store.Triples.{Runs, Runs-then}
use laa_inquests_api.Store.Exact.{
  Open, add_event, Open-send, Open-update, Open-query, Open-or_raise, Open-create_history_event,
  Yields-commit_twice, NothingOrAll,
}
use laa_inquests_api.Store.Yields.{Ending, Yields, Yields-after, Yields-given, Yields-weaken}
use laa_inquests_api.UseCases.Applications.{or_fail, refused_proceeding, announce_refusal, refuse}
use laa_inquests_api.UseCases.CreateClaim.Phases.{system_name}
use laa_inquests_api.UseCases.RejectClaim.{user_name}

module _ (env : Env) where
  -- The change that both decisions begin with: the new decision and its event.
  abbrev pub assessed : Application → ApplicationProceeding → EventData → Db → Db
  assessed a p payload db =
      add_event env application_assessment_completed env.user_name caseworker a.application_id
        payload (change_application a.application_id (decide_application p) db)

  -- The history of a refusal, after the decision of `w`.
  abbrev pub told : Application → Db → Db
  told a w =
      add_event env HistoryEventReference.application_refused system_name system a.application_id
        (email_data a.provider.email_address) w

  -- The change that a refusal stands for: the application of that key has its decision, and the
  -- history the refusal and its email.
  abbrev pub refused_db : Application → Refusal → Db → Db
  refused_db a request db = told a (
      assessed a (refused_proceeding request a.proceeding)
        (refusal_data request.reason_for_refusal request.justification) db)

  pub Open-user_name :
      (d w : Db) → Runs env d (Open env d w) user_name (λ u s. (u ≡ env.user_name) × Open env d w s)
  Open-user_name d w = record { at = λ s h. (refl, h) }

  pub Yields-or_fail :
      {A : Type 0} (d w : Db) {P : Session → Type 0} {Q : A → Session → Type 0} (m : Action A)
      (error : Exception)
      → Yields env P m Q (NothingOrAll env d w)
      → Yields env P (or_fail m error) Q (NothingOrAll env d w)
  Yields-or_fail {A} d w {P} {Q} m error h = record { at = λ s k. go (m env s) (h.at s k) }
    where
      go :
          (r : Result Exception A × Session)
          → Ending env Q (NothingOrAll env d w) r
          → Ending env {A = A} Q
              (NothingOrAll env d w)
              (elim r.0 [ ok a ↦ (ok a, r.1) | err _ ↦ (err error, rollback r.1) ])
      go (ok a, s') q = q
      go (err e, s') q = q

  Open-announce_refusal :
      (d w : Db) (a : Application)
      → Runs env d (Open env d w) (announce_refusal a) (λ _. Open env d (told a w))
  unfolding announce_refusal
  Open-announce_refusal d w a =
      Runs-then env d (Open-send env d w _) (Open-create_history_event env d w _ _ _ _ _)

  pub Yields-assessed :
      (d w : Db) (a : Application) (p : ApplicationProceeding) (payload : EventData)
      (rest : Action (Unit {0}))
      → Yields env
          (Open env d (assessed a p payload d))
          rest
          (λ _ s. s.committed ≡ w)
          (NothingOrAll env d w)
      → Yields env
          (Open env d d)
          (update_decision a.application_id p >>= λ _. user_name >>= λ user.
            create_history_event application_assessment_completed user caseworker a.application_id
              payload
            >>= λ _. rest)
          (λ _ s. s.committed ≡ w)
          (NothingOrAll env d w)
  unfolding update_decision
  Yields-assessed d w a p payload rest h =
      Yields-after env d _ _ (Open-update env d d _) (λ s h. inl h)
        λ _.
          Yields-after env d user_name _ (Open-user_name d _) (λ s h. inl h)
            λ user. Yields-given env _ λ e.
              Yields-after env d _ _ (Open-create_history_event env d _ _ _ _ _ _) (λ s h. inl h)
                λ _. rw (e) h

  Yields-refused :
      (d w : Db) (a : Application)
      → Yields env
          (Open env d w)
          (or_fail (announce_refusal a >> (commit >> commit)) refuse_decision_error)
          (λ _ s. s.committed ≡ told a w)
          (NothingOrAll env d (told a w))
  Yields-refused d w a = Yields-or_fail d _ _ refuse_decision_error (
      Yields-after env d (announce_refusal a) (λ _. commit >> commit) (Open-announce_refusal d w a)
        (λ s h. inl h) (λ _. Yields-commit_twice env d _))

  -- The database is changed by `change`, for the application of that reference.
  abbrev pub Changes : Text → (Application → Db → Db) → Db → Session → Type 0
  Changes laa_reference change d s =
      (a : Application) × (application_by_laa_reference laa_reference d ≡ some a)
      × (s.committed ≡ change a d)

  -- Nothing is committed, or all of such a change.
  abbrev pub ChangesOrNothing : Text → (Application → Db → Db) → Db → Session → Type 0
  ChangesOrNothing laa_reference change d s = (s.committed ≡ d) ⊎ Changes laa_reference change d s

  -- The look-up before a decision.
  pub Yields-found :
      (d : Db) (laa_reference : Text) (change : Application → Db → Db)
      (f : Application → Action (Unit {0}))
      → ((a : Application)
          → Yields env
              (Open env d d)
              (f a)
              (λ _ s. s.committed ≡ change a d)
              (NothingOrAll env d (change a d)))
      → Yields env
          (Open env d d)
          (get_application_by_laa_reference laa_reference >>= λ found.
            or_raise found (application_not_found laa_reference) >>= f)
          (λ _. Changes laa_reference change d)
          (ChangesOrNothing laa_reference change d)
  unfolding get_application_by_laa_reference
  Yields-found d laa_reference change f decide =
      Yields-after env d _ _ (Open-query env d d (application_by_laa_reference laa_reference))
        (λ s h. inl h)
        λ found. Yields-given env _ λ e.
          Yields-after env d _ _ (Open-or_raise env d d found (application_not_found laa_reference))
            (λ s h. inl h)
            λ a. Yields-given env _ λ here.
              Yields-weaken env (λ _ s h. (a, sym e ∙ here, h))
                (λ s h. elim h [ inl x ↦ inl x | inr x ↦ inr (a, sym e ∙ here, x) ]) (decide a)

  -- With nothing pending, a refusal that returns has committed its change for the application of
  -- that reference, the refused proceeding and two events in this order; one that fails has
  -- committed nothing or that same whole change.
  pub refuse_exact :
      (laa_reference : Text) (request : Refusal) (s : Session)
      → s.working ≡ s.committed
      → Ending env
          (λ _. Changes laa_reference (λ a. refused_db a request) s.committed)
          (ChangesOrNothing laa_reference (λ a. refused_db a request) s.committed)
          (refuse laa_reference request env s)
  unfolding refuse
  refuse_exact laa_reference request s clean =
      (Yields-found s.committed laa_reference (λ a. refused_db a request) _
          (λ a.
            Yields-assessed s.committed (refused_db a request s.committed) a _ _ _
              (Yields-refused s.committed _ a))).at
        s (refl, clean)
