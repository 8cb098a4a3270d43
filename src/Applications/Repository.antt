-- ===== src/Applications/Repository.antt =====
-- `ApplicationRepositoryAdapter` of app/adapters/application_repository_adapter.py: its methods on
-- applications and their duplicates.
use laa_inquests_api.Prelude.{
  ℕ, zero, suc, Bool, true, false, ◌&&◌, Option, none, some, List, [], ◌∷◌, ◌++◌, map, any, select,
  is_empty, ok, ◌==◌, if◌then◌else◌,
}
use laa_inquests_api.Text.{Text, codes, eq_text, strip, upper, occurs_in}
use laa_inquests_api.Enums.{MeritsDecision, submitted}
use laa_inquests_api.Exceptions.{runtime_error, lookup_error}
use laa_inquests_api.Application.{Application, ApplicationProceeding, Client, Deceased}
use laa_inquests_api.Applications.Duplicates.{duplicate_ids}
use laa_inquests_api.Store.{Db, Env}
use laa_inquests_api.Store.Tables.{first}
use laa_inquests_api.Store.Actions.{Action, pure, raise, or_raise, ◌>>=◌, ◌>>◌}
use laa_inquests_api.Store.Repository.{query, update, without_dashes}

-- `merits_decision == decision`
abbrev pub same_decision : MeritsDecision → MeritsDecision → Bool
same_decision MeritsDecision.submitted MeritsDecision.submitted = true
same_decision MeritsDecision.refused MeritsDecision.refused = true
same_decision MeritsDecision.granted MeritsDecision.granted = true
same_decision _ _ = false

-- An application with new columns, if it has the key.
abbrev pub with_key : ℕ → (Application → Application) → Application → Application
with_key id f a = if a.application_id == id then f a else a

abbrev pub change_application : ℕ → (Application → Application) → Db → Db
change_application id f db = record db { applications = map (with_key id f) db.applications }

abbrev pub decide_application : ApplicationProceeding → Application → Application
decide_application p a = record a { proceeding = p }

-- `update_decision`, for the proceeding of the application of that key
unfoldable pub update_decision : ℕ → ApplicationProceeding → Action (Unit {0})
update_decision id p = update (change_application id (decide_application p))

abbrev pub name_public_bodies : List Text → Application → Application
name_public_bodies public_bodies a = record a { public_bodies = public_bodies }

unfoldable pub update_public_bodies : ℕ → List Text → Action (Unit {0})
update_public_bodies id public_bodies =
    update (change_application id (name_public_bodies public_bodies))

-- `search_applications`, apart from failures
unfoldable pub search_applications :
    Text → Text → List Text → Option MeritsDecision → Db → List Application
search_applications laa_reference firm_code office_codes merits_decision db =
    select
      (λ (a : Application).
        eq_text a.laa_reference (upper (strip laa_reference))
        && eq_text a.provider.firm_code firm_code
        && any (eq_text a.provider.office_id) office_codes
        && elim merits_decision [
          | none ↦ true
          | some d ↦ same_decision a.proceeding.merits_decision d
        ])
      db.applications

-- `session.get(Application, application_id)`
abbrev pub application_by_id : ℕ → Db → Option Application
application_by_id id db =
    first (select (λ (a : Application). a.application_id == id) db.applications)

unfoldable pub identify_duplicates : ℕ → Action (List ℕ)
identify_duplicates id = do
  found ← query (application_by_id id)
  a ← or_raise found lookup_error
  query (λ (db : Db). duplicate_ids a db.applications)

unfoldable pub create_duplicate_records : ℕ → List ℕ → Action (Unit {0})
create_duplicate_records id ids =
    if is_empty ids
    then pure tt
    else update (λ (db : Db). record db {
      duplicates =
          db.duplicates
          ++ map (λ (other : ℕ). record { application_id = id; duplicate_application_id = other })
              ids;
    })

-- `_generate_laa_reference`: 'INQ-XXX-XXX', of two draws of three allowed characters
unfoldable pub generate_laa_reference : Action Text
generate_laa_reference env s = (
  ok (codes "INQ-" ++ (env.random_chars s.draws ++ (b'-' ∷ env.random_chars (suc s.draws)))),
  record s { draws = suc (suc s.draws) },
)

unfoldable pub laa_reference_refused : Text → Action Bool
laa_reference_refused reference env s =
    if any (λ w. occurs_in w (without_dashes reference)) env.banned_words
    then (ok true, s)
    else query
        (λ (db : Db). any (λ (a : Application). eq_text a.laa_reference reference) db.applications)
        env s

-- `_get_laa_reference`, on the number of attempts that are left
unfoldable pub get_laa_reference : ℕ → Action Text
unfolding generate_laa_reference laa_reference_refused
get_laa_reference zero = raise runtime_error
get_laa_reference (suc attempts) = do
  reference ← generate_laa_reference
  refused ← laa_reference_refused reference
  elim refused [ true ↦ get_laa_reference attempts | false ↦ pure reference ]

-- `GENERATE_LAA_REFERENCE_ATTEMPTS`
abbrev pub generate_laa_reference_attempts : ℕ
generate_laa_reference_attempts = 10

-- The parts of `ApplicationCreate` that the model keeps, with the cost limitation of the proceeding
-- that it names.
pub record ApplicationCreate : Type 0 where
  pub office_id : Text
  pub email_address : Text
  pub client : Client
  pub deceased : Deceased
  pub public_bodies : List Text
  pub proceeding_cost_limitation : Option ℕ

-- The row that `create_application` adds, with the column defaults.
abbrev pub new_application : Env → ℕ → Text → Text → ApplicationCreate → Application
new_application env id reference firm_code request = record {
  application_id = id;
  laa_reference = reference;
  status = some "LIVE";
  created_at = env.now;
  provider = record {
    firm_code = firm_code;
    office_id = request.office_id;
    email_address = request.email_address;
  };
  client = request.client;
  deceased = request.deceased;
  public_bodies = request.public_bodies;
  proceeding = record {
    merits_decision = submitted;
    reason_for_refusal = none;
    justification = none;
    proceeding_cost_limitation = request.proceeding_cost_limitation;
    substantive_cost_limitation_effective_date = none;
    certificate_issue_date = none;
    certificate_start_date = none;
    certificate_end_date = none;
  };
}

unfoldable pub insert_application : (Db → Env → Application) → Action Application
insert_application row env s =
    let a : Application = row s.working env in
    (update (λ (db : Db). record db { applications = db.applications ++ (a ∷ []) }) >> pure a) env s

-- `create_application`; the calls before the reference flush the addresses, the client, the
-- deceased and the provider.
unfoldable pub create_application : ApplicationCreate → Text → Action Application
create_application request firm_code = do
  update (λ db. db)
  update (λ db. db)
  update (λ db. db)
  update (λ db. db)
  reference ← get_laa_reference generate_laa_reference_attempts
  insert_application
      (λ db env. new_application env (env.new_application_id db) reference firm_code request)
