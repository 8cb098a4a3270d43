-- ===== src/UseCases/Applications/Granted.antt =====
-- The grant of an application, app/use_cases/grant_decision.py with
-- app/use_cases/create_certificate_context.py, and the change of the database that it stands for.
use laa_inquests_api.Prelude.{◌≡◌, refl, inl, Option, none, some, [], arith}
use laa_inquests_api.Text.{Text}
use laa_inquests_api.Calendar.{Date}
use laa_inquests_api.Enums.{
  caseworker, system, HistoryEventReference, certificate_created, application_granted_email,
}
use laa_inquests_api.Exceptions.{unexpected, grant_decision_error}
use laa_inquests_api.Application.{Address, Application, correspondence_recipient}
use laa_inquests_api.Applications.Requests.{GrantApplicationUpdate}
use laa_inquests_api.Applications.Repository.{change_application}
use laa_inquests_api.Applications.Certificate.{
  chosen_address, assign_address, care_of, set_client, add_recipient, populate_certificate_context,
  address_fields,
}
use laa_inquests_api.Records.{grant_data, certificate_data, letter_data, email_data}
use laa_inquests_api.Store.{Db, Session, Env}
use laa_inquests_api.Store.Actions.{pure, raise, modify, call, commit, or_raise, ◌>>=◌, ◌>>◌}
use laa_inquests_api.Store.Repository.{create_history_event}
use laa_inquests_api.Store.Triples.{Runs, Runs-pure, Runs-given, Runs-bind, Runs-then}
use laa_inquests_api.Store.Exact.{
  Open, add_event, Open-outside, Open-modify, Open-raise, Open-send, Open-or_raise,
  Open-create_history_event, Yields-commit_twice, NothingOrAll,
}
use laa_inquests_api.Store.Yields.{Ending, Yields, Yields-after, Yields-given}
use laa_inquests_api.UseCases.Applications.{
  or_fail, granted_proceeding, announce_grant, today, grant,
}
use laa_inquests_api.UseCases.CreateClaim.Phases.{system_name}
use laa_inquests_api.UseCases.RejectClaim.{user_name}
use laa_inquests_api.UseCases.Applications.Outcome.{
  assessed, Open-user_name, Yields-or_fail, Yields-assessed, Changes, ChangesOrNothing,
  Yields-found,
}

module _ (env : Env) (get_office_address : Text → Address) where
  abbrev office_of : Application → Address
  office_of a = get_office_address a.provider.office_id

  -- The address of the letter, with a recipient before it if the client has one.
  abbrev pub letter_address : Application → Option Address
  letter_address a = elim (correspondence_recipient a.client) [
    | none ↦ chosen_address (office_of a) a.client
    | some name ↦ elim (chosen_address (office_of a) a.client) [
      | none ↦ none
      | some address ↦ some (care_of name address)
    ]
  ]

  -- The client of a grant: its own address, if the letter goes there, gets the recipient too.
  abbrev pub readdressed : Application → Db → Db
  readdressed a w = elim (correspondence_recipient a.client) [
    | none ↦ w
    | some name ↦ elim (chosen_address (office_of a) a.client) [
      | none ↦ w
      | some address ↦
          change_application a.application_id
            (set_client (assign_address (care_of name address) a.client)) w
    ]
  ]

  -- The history of a grant, after the decision and the client's address of `w`.
  abbrev pub announced : Application → Db → Db
  announced a w =
      add_event env HistoryEventReference.application_granted_letter system_name system
        a.application_id
        (letter_data (elim (letter_address a) [ none ↦ [] | some x ↦ address_fields x ]))
        (add_event env application_granted_email system_name system a.application_id
          (email_data a.provider.email_address)
          (add_event env certificate_created env.user_name caseworker a.application_id
            (certificate_data a.laa_reference) w))

  -- The change that a grant stands for: the application of that key has its decision, with the
  -- certificate issued today, and its client the address of the letter; and the history the grant,
  -- the certificate, the email and the letter.
  abbrev pub granted_db : Application → GrantApplicationUpdate → Db → Db
  granted_db a request db = announced a (
      readdressed a
        (assessed env a (granted_proceeding env.now.date request a.proceeding) grant_data db))

  Open-add_recipient :
      (d w : Db) (a : Application)
      → Runs env d
          (Open env d w)
          (add_recipient a (chosen_address (office_of a) a.client))
          (λ r s. (r ≡ letter_address a) × Open env d (readdressed a w) s)
  unfolding add_recipient
  Open-add_recipient d w a =
      go (correspondence_recipient a.client) (chosen_address (office_of a) a.client)
    where
      go :
          (recipient : Option Text) (chosen : Option Address)
          → Runs env d
              (Open env d w)
              (elim recipient [
                | none ↦ pure chosen
                | some name ↦ elim chosen [
                  | none ↦ raise unexpected
                  | some address ↦
                      modify (
                        change_application a.application_id
                          (set_client (assign_address (care_of name address) a.client)))
                      >> pure (some (care_of name address))
                ]
              ])
              (λ r s.
                (r ≡ elim recipient [
                  | none ↦ chosen
                  | some name ↦ elim chosen [
                    | none ↦ none
                    | some address ↦ some (care_of name address)
                  ]
                ])
                × Open env d
                    (elim recipient [
                      | none ↦ w
                      | some name ↦ elim chosen [
                        | none ↦ w
                        | some address ↦
                            change_application a.application_id
                              (set_client (assign_address (care_of name address) a.client))
                              w
                      ]
                    ])
                    s)
      go none chosen = Runs-pure env d chosen (λ s h. (refl, h))
      go (some name) none = Open-raise env d w unexpected
      go (some name) (some address) =
          Runs-then env d (Open-modify env d w _)
            (Runs-pure env d (some (care_of name address)) (λ s h. (refl, h)))

  Open-populate_certificate_context :
      (d w : Db) (a : Application)
      → Runs env d
          (Open env d w)
          (populate_certificate_context (office_of a) a)
          (λ r s. (r ≡ letter_address a) × Open env d (readdressed a w) s)
  unfolding populate_certificate_context
  Open-populate_certificate_context d w a =
      Runs-then env d (Open-outside env d w)
        (Runs-then env d (Open-outside env d w) (Open-add_recipient d w a))

  -- The letter and its event, for the address that the context has.
  Open-posted :
      (d w : Db) (a : Application) (address : Option Address)
      → Runs env d
          (Open env d w)
          (or_raise address unexpected >>= λ x.
            create_history_event HistoryEventReference.application_granted_letter system_name system
              a.application_id
              (letter_data (address_fields x)))
          (λ _. Open env d (
            add_event env HistoryEventReference.application_granted_letter system_name system
              a.application_id
              (letter_data (elim address [ none ↦ [] | some x ↦ address_fields x ]))
              w))
  Open-posted d w a none =
      Runs-bind env d (or_raise none unexpected) _ (Open-or_raise env d w none unexpected)
        λ x. Runs-given env d _ λ e. absurd (ground arith)
  Open-posted d w a (some address) =
      Runs-bind env d (or_raise (some address) unexpected) _
        (Open-or_raise env d w (some address) unexpected)
        λ x. Runs-given env d _ λ e.
          let same : address ≡ x = ground arith in
          rw (same) (Open-create_history_event env d w _ _ _ _ _)

  -- The events of the grant from the certificate on.
  Open-announced :
      (d w : Db) (a : Application) (address : Option Address) (user : Option Text)
      → address ≡ letter_address a
      → user ≡ env.user_name
      → Runs env d
          (Open env d w)
          (create_history_event certificate_created user caseworker a.application_id
              (certificate_data a.laa_reference)
            >> (create_history_event application_granted_email system_name system a.application_id
                  (email_data a.provider.email_address)
                >> (call (λ (s : Session). s)
                    >> (or_raise address unexpected >>= λ x.
                        create_history_event HistoryEventReference.application_granted_letter
                          system_name system a.application_id
                          (letter_data (address_fields x))))))
          (λ _. Open env d (announced a w))
  Open-announced d w a address user e f =
      rw (e, f)
        (Runs-then env d (Open-create_history_event env d w _ _ _ _ _) (
          Runs-then env d (Open-create_history_event env d _ _ _ _ _ _)
            (Runs-then env d (Open-outside env d _) (Open-posted d _ a (letter_address a)))))

  Open-announce_grant :
      (d w : Db) (a : Application)
      → Runs env d
          (Open env d w)
          (announce_grant get_office_address a)
          (λ _. Open env d (announced a (readdressed a w)))
  unfolding announce_grant
  Open-announce_grant d w a =
      Runs-bind env d _ _ (Open-populate_certificate_context d w a) λ address.
        Runs-given env d _ λ e. Runs-then env d (Open-outside env d _) (
          Runs-then env d (Open-send env d _ _) (
            Runs-bind env d user_name _ (Open-user_name env d _)
              λ user. Runs-given env d _ (λ f. Open-announced d _ a address user e f)))

  Yields-granted :
      (d w : Db) (a : Application)
      → Yields env
          (Open env d w)
          (or_fail (announce_grant get_office_address a >> (commit >> commit)) grant_decision_error)
          (λ _ s. s.committed ≡ announced a (readdressed a w))
          (NothingOrAll env d (announced a (readdressed a w)))
  Yields-granted d w a = Yields-or_fail env d _ _ grant_decision_error (
      Yields-after env d (announce_grant get_office_address a) (λ _. commit >> commit)
        (Open-announce_grant d w a) (λ s h. inl h) (λ _. Yields-commit_twice env d _))

  Open-today :
      (d w : Db)
      → Runs env d
          (Open env d w)
          (today get_office_address)
          (λ date s. (date ≡ env.now.date) × Open env d w s)
  unfolding today
  Open-today d w = record { at = λ s h. (refl, h) }

  Yields-dated :
      (d : Db) (a : Application) (request : GrantApplicationUpdate) (date : Date)
      → date ≡ env.now.date
      → Yields env
          (Open env d (assessed env a (granted_proceeding date request a.proceeding) grant_data d))
          (or_fail (announce_grant get_office_address a >> (commit >> commit)) grant_decision_error)
          (λ _ s. s.committed ≡ granted_db a request d)
          (NothingOrAll env d (granted_db a request d))
  Yields-dated d a request date now = rw (now) (Yields-granted d _ a)

  -- With nothing pending, a grant that returns has committed its change for the application of
  -- that reference, the granted proceeding, the recipient in the client's address that the letter
  -- goes to, and four events in this order; one that fails has committed nothing or that same
  -- whole change.
  pub grant_exact :
      (laa_reference : Text) (request : GrantApplicationUpdate) (s : Session)
      → s.working ≡ s.committed
      → Ending env
          (λ _. Changes env laa_reference (λ a. granted_db a request) s.committed)
          (ChangesOrNothing env laa_reference (λ a. granted_db a request) s.committed)
          (grant get_office_address laa_reference request env s)
  unfolding grant
  grant_exact laa_reference request s clean =
      (Yields-found env s.committed laa_reference (λ a. granted_db a request) _
          (λ a.
            Yields-after env s.committed (today get_office_address) _ (Open-today s.committed _)
              (λ s h. inl h)
              λ date. Yields-given env _ λ now.
                Yields-assessed env s.committed (granted_db a request s.committed) a _ _ _
                  (Yields-dated s.committed a request date now))).at
        s (refl, clean)
