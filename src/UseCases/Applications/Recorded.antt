-- ===== src/UseCases/Applications/Recorded.antt =====
-- The events that the use cases on applications write.
use laa_inquests_api.Prelude.{
  ℕ, zero, suc, Bool, true, false, Option, none, some, List, Result, ok, err, any, refl,
  if◌then◌else◌,
}
use laa_inquests_api.Text.{Text, occurs_in, eq_text}
use laa_inquests_api.Exceptions.{Exception, unexpected}
use laa_inquests_api.Application.{
  Address, Application, ApplicationProceeding, correspondence_recipient,
}
use laa_inquests_api.Applications.Requests.{Refusal, GrantApplicationUpdate}
use laa_inquests_api.Applications.Repository.{
  ApplicationCreate, change_application, update_decision, update_public_bodies, identify_duplicates,
  create_duplicate_records, create_application, generate_laa_reference, laa_reference_refused,
  get_laa_reference, insert_application,
}
use laa_inquests_api.Applications.Certificate.{
  assign_address, care_of, set_client, add_recipient, populate_certificate_context,
}
use laa_inquests_api.Store.{Db, Session, Env}
use laa_inquests_api.Store.Actions.{Action, pure, raise, modify, rollback, ◌>>◌}
use laa_inquests_api.Store.Repository.{
  get_application_by_laa_reference, query, update, without_dashes,
}
use laa_inquests_api.Store.History.{
  Records, Sound, SoundAfter, Records-pure, Records-raise, Records-bind, Records-if, Records-update,
  Records-modify, Records-query, note, submitted, submission_confirmed, granted, certified,
  grant_emailed, grant_posted, refused, refusal_emailed, parties,
}
use laa_inquests_api.UseCases.History.{claim_rules}
use laa_inquests_api.UseCases.History.Claims.{Records-user_name}
use laa_inquests_api.UseCases.Applications.{
  or_fail, announce_grant, today, grant, announce_refusal, refuse, replace_public_bodies,
  change_public_bodies, create_note, record_duplicates, submit_application, create,
}

ruleset application_rules = (claim_rules, Records-user_name)

Records-or_fail :
    {A : Type 0} (m : Action A) (error : Exception) → Records m → Records (or_fail m error)
Records-or_fail {A} m error h = record { at = λ env s k. go (m env s) (h.at env s k) }
  where
    go :
        (r : Result Exception A × Session)
        → SoundAfter r
        → SoundAfter {A = A} (elim r.0 [ ok a ↦ (ok a, r.1) | err _ ↦ (err error, rollback r.1) ])
    go (ok a, s') q = q
    go (err _, s') q = record { committed = q.committed; working = q.committed }

Records-update_decision : (id : ℕ) (p : ApplicationProceeding) → Records (update_decision id p)
unfolding update_decision
Records-update_decision id p = Records-update _ (λ db. refl)

Records-update_public_bodies :
    (id : ℕ) (bodies : List Text) → Records (update_public_bodies id bodies)
unfolding update_public_bodies
Records-update_public_bodies id bodies = Records-update _ (λ db. refl)

Records-today : (get_office_address : Text → Address) → Records (today get_office_address)
unfolding today
Records-today get_office_address = record { at = λ env s h. h }

Records-add_recipient :
    (a : Application) (chosen : Option Address) → Records (add_recipient a chosen)
unfolding add_recipient
Records-add_recipient a chosen = go (correspondence_recipient a.client) chosen
  where
    go :
        (recipient : Option Text) (chosen : Option Address)
        → Records (elim recipient [
          | none ↦ pure chosen
          | some name ↦ elim chosen [
            | none ↦ raise unexpected
            | some address ↦
                modify (
                  change_application a.application_id
                    (set_client (assign_address (care_of name address) a.client)))
                >> pure (some (care_of name address))
          ]
        ])
    go none chosen = Records-pure chosen
    go (some name) none = Records-raise unexpected
    go (some name) (some address) =
        Records-bind _ _ (Records-modify _ (λ db. refl)) (λ _. Records-pure _)

Records-populate :
    (office : Address) (a : Application) → Records (populate_certificate_context office a)
unfolding populate_certificate_context
Records-populate office a = search (application_rules, Records-add_recipient) depth 12

module _ (get_office_address : Text → Address) where
  Records-announce_grant : (a : Application) → Records (announce_grant get_office_address a)
  unfolding announce_grant
  Records-announce_grant a =
      search (application_rules, Records-populate, certified, grant_emailed, grant_posted) depth 30

  pub grant-Records :
      (laa_reference : Text) (request : GrantApplicationUpdate)
      → Records (grant get_office_address laa_reference request)
  unfolding grant get_application_by_laa_reference
  grant-Records laa_reference request =
      search
        (
          application_rules, Records-today, Records-update_decision, Records-or_fail,
          Records-announce_grant, granted,
        )
        depth 20

Records-announce_refusal : (a : Application) → Records (announce_refusal a)
unfolding announce_refusal
Records-announce_refusal a = search (application_rules, refusal_emailed) depth 15

pub refuse-Records :
    (laa_reference : Text) (request : Refusal) → Records (refuse laa_reference request)
unfolding refuse get_application_by_laa_reference
refuse-Records laa_reference request =
    search
      (
        application_rules, Records-update_decision, Records-or_fail, Records-announce_refusal,
        refused,
      )
      depth 20

Records-replace_public_bodies :
    (a : Application) (bodies : List Text) → Records (replace_public_bodies a bodies)
unfolding replace_public_bodies
Records-replace_public_bodies a bodies =
    search (application_rules, Records-update_public_bodies, parties) depth 15

pub change_public_bodies-Records :
    (laa_reference : Text) (bodies : List Text)
    → Records (change_public_bodies laa_reference bodies)
unfolding change_public_bodies get_application_by_laa_reference
change_public_bodies-Records laa_reference bodies =
    search (application_rules, Records-replace_public_bodies) depth 15

pub create_note-Records :
    (laa_reference note_text : Text) → Records (create_note laa_reference note_text)
unfolding create_note get_application_by_laa_reference
create_note-Records laa_reference note_text = search (application_rules, note) depth 15

Records-create_duplicate_records :
    (id : ℕ) (ids : List ℕ) → Records (create_duplicate_records id ids)
unfolding create_duplicate_records
Records-create_duplicate_records id ids =
    Records-if _ (Records-pure tt) (Records-update _ (λ db. refl))

Records-record_duplicates : (id : ℕ) → Records (record_duplicates id)
unfolding record_duplicates identify_duplicates
Records-record_duplicates id = search (application_rules, Records-create_duplicate_records) depth 15

Records-generate : Records generate_laa_reference
unfolding generate_laa_reference
Records-generate = record {
  at = λ env s h. record { committed = h.committed; working = h.working };
}

Records-laa_reference_refused : (reference : Text) → Records (laa_reference_refused reference)
unfolding laa_reference_refused
Records-laa_reference_refused reference = record {
  at = λ env s h. go env s h (any (λ w. occurs_in w (without_dashes reference)) env.banned_words);
}
  where
    exists : Db → Bool
    exists db = any (λ (a : Application). eq_text a.laa_reference reference) db.applications

    go :
        (env : Env) (s : Session)
        → Sound s
        → (test : Bool) → SoundAfter {A = Bool} (if test then (ok true, s) else query exists env s)
    go env s h true = h
    go env s h false = (Records-query exists).at env s h

Records-get_laa_reference : (attempts : ℕ) → Records (get_laa_reference attempts)
unfolding get_laa_reference
Records-get_laa_reference zero = Records-raise _
Records-get_laa_reference (suc attempts) = Records-bind _ _ Records-generate λ reference.
    Records-bind (laa_reference_refused reference) _ (Records-laa_reference_refused reference)
      λ refused. again refused reference (Records-get_laa_reference attempts)
  where
    again :
        (refused : Bool) (reference : Text) {m : Action Text}
        → Records m
        → Records (elim refused [ true ↦ m | false ↦ pure reference ])
    again true reference h = h
    again false reference h = Records-pure reference

Records-insert_application : (row : Db → Env → Application) → Records (insert_application row)
unfolding insert_application
Records-insert_application row = record {
  at = λ env s.
      (Records-bind (update _) _ (Records-update _ (λ db. refl)) (λ _. Records-pure _)).at env s;
}

Records-create_application :
    (request : ApplicationCreate) (firm_code : Text)
    → Records (create_application request firm_code)
unfolding create_application
Records-create_application request firm_code =
    search (application_rules, Records-get_laa_reference, Records-insert_application) depth 15

Records-submit_application :
    (exists : Text → Bool) (office_codes : List Text) (a : Application)
    → Records (submit_application exists office_codes a)
unfolding submit_application
Records-submit_application exists office_codes a =
    search (application_rules, Records-record_duplicates, submitted, submission_confirmed) depth 25

pub create-Records :
    (exists : Text → Bool) (request : ApplicationCreate) (firm_code : Text)
    (office_codes : List Text)
    → Records (create exists request firm_code office_codes)
unfolding create
create-Records exists request firm_code office_codes =
    search (application_rules, Records-create_application, Records-submit_application) depth 12
