-- ===== src/UseCases/History/Claims.antt =====
-- The events that the use cases on claims write: app/use_cases/create_claim.py, reject_claim.py and
-- pay_in_full_claim.py.
use laa_inquests_api.Prelude.{ℕ, Bool, List, [], ◌∷◌, Result, ok, err}
use laa_inquests_api.Text.{Text}
use laa_inquests_api.Calendar.{Date, Datetime}
use laa_inquests_api.Messages.{ClaimValidationError}
use laa_inquests_api.Application.{Application}
use laa_inquests_api.PayInFull.{PayInFullClaim}
use laa_inquests_api.Records.{ClaimRow}
use laa_inquests_api.Store.Actions.{Action}
use laa_inquests_api.Store.Repository.{
  get_application_by_laa_reference, get_claim_by_reference, get_claims_by_application_id,
  get_payment_extracts_by_claim_id, query,
}
use laa_inquests_api.Store.History.{
  Records, Records-pure, Records-raise, Records-bind, Records-query, rejected, rejection_emailed,
  paid, paid_emailed,
}
use laa_inquests_api.UseCases.History.{claim_rules}
use laa_inquests_api.UseCases.RejectClaim
use laa_inquests_api.UseCases.PayInFullClaim
use laa_inquests_api.UseCases.PayInFullClaim.{PayInFullClaimCommand}
use laa_inquests_api.Exceptions.{Exception}
use laa_inquests_api.UseCases.PayInFullClaim.Extract.{
  ExtractPorts, recoupable_poa_claims, recoup_each, payment_lines, create_extract,
}
use laa_inquests_api.UseCases.CreateClaim

pub Records-user_name : Records RejectClaim.user_name
Records-user_name = record { at = λ env s h. h }

Records-claim_for_assessment :
    (a : Application) (reference : Text) → Records (RejectClaim.claim_for_assessment a reference)
unfolding RejectClaim.claim_for_assessment get_claim_by_reference
Records-claim_for_assessment a reference = search claim_rules depth 12

Records-record_rejection :
    (a : Application) (c : ClaimRow) (t : Text) → Records (RejectClaim.record_rejection a c t)
unfolding RejectClaim.record_rejection
Records-record_rejection a c t =
    search (claim_rules, Records-user_name, rejected, rejection_emailed) depth 20

Records-rejection :
    (a : Application) (c : RejectClaim.RejectClaimCommand) → Records (RejectClaim.assessment a c)
unfolding RejectClaim.assessment
Records-rejection a c =
    search (claim_rules, Records-claim_for_assessment, Records-record_rejection) depth 12

Records-notification : (c : ClaimRow) → Records (RejectClaim.notification c)
unfolding RejectClaim.notification
Records-notification c = search claim_rules depth 8

Records-or_ignore : (m : Action (Unit {0})) → Records m → Records (RejectClaim.or_ignore m)
Records-or_ignore m h = record { at = h.at }

pub reject_claim-Records :
    (gov_notify : Bool) (c : RejectClaim.RejectClaimCommand)
    → Records (RejectClaim.execute gov_notify c)
unfolding RejectClaim.execute get_application_by_laa_reference
reject_claim-Records gov_notify c =
    search (claim_rules, Records-rejection, Records-notification, Records-or_ignore) depth 15

Records-recoupable :
    (ports : ExtractPorts) (application claim : ℕ)
    → Records (recoupable_poa_claims ports application claim)
unfolding recoupable_poa_claims get_claims_by_application_id
Records-recoupable ports application claim = search claim_rules depth 8

Records-recoup_each :
    (date : Date) (cs : List ClaimRow) (sequence : ℕ) → Records (recoup_each date sequence cs)
unfolding recoup_each get_payment_extracts_by_claim_id
Records-recoup_each date [] sequence = Records-pure []
Records-recoup_each date (c ∷ cs) sequence = Records-bind (query _) _ (Records-query _) (λ extracts.
    Records-bind (recoup_each date _ cs) _ (Records-recoup_each date cs _) (λ rest. Records-pure _))

Records-result : {A : Type 0} (r : Result Exception A) → Records {A = A} (λ env s. (r, s))
Records-result r = record { at = λ env s h. h }

Records-payment_lines :
    (ports : ExtractPorts) (a : Application) (c : ClaimRow) (d : PayInFullClaim) (t : Datetime)
    → Records (payment_lines ports a c d t)
unfolding payment_lines
Records-payment_lines ports a c d t =
    search (claim_rules, Records-recoupable, Records-recoup_each, Records-result) depth 12

Records-create_extract :
    (ports : ExtractPorts) (a : Application) (c : ClaimRow) (d : PayInFullClaim) (t : Datetime)
    → Records (create_extract ports a c d t)
unfolding create_extract
Records-create_extract ports a c d t = search (claim_rules, Records-payment_lines) depth 8

Records-send_decision_email :
    (a : Application) (c : ClaimRow) → Records (PayInFullClaim.send_decision_email a c)
unfolding PayInFullClaim.send_decision_email
Records-send_decision_email a c = search (claim_rules, paid_emailed) depth 8

Records-record_payment :
    (ports : ExtractPorts) (a : Application) (c : ClaimRow) (d : PayInFullClaim)
    → Records (PayInFullClaim.record_payment ports a c d)
unfolding PayInFullClaim.record_payment
Records-record_payment ports a c d =
    search
      (claim_rules, Records-user_name, Records-create_extract, Records-send_decision_email, paid)
      depth 25

pub Records-or_invalid :
    {A : Type 0} (r : Result ClaimValidationError A) → Records (CreateClaim.or_invalid r)
Records-or_invalid (ok a) = Records-pure a
Records-or_invalid (err e) = Records-raise _

Records-payment :
    (ports : ExtractPorts) (a : Application) (c : PayInFullClaimCommand)
    → Records (PayInFullClaim.assessment ports a c)
unfolding PayInFullClaim.assessment
Records-payment ports a c =
    search (claim_rules, Records-claim_for_assessment, Records-or_invalid, Records-record_payment)
      depth 12

pub pay_in_full_claim-Records :
    (ports : ExtractPorts) (c : PayInFullClaimCommand) → Records (PayInFullClaim.execute ports c)
unfolding PayInFullClaim.execute get_application_by_laa_reference
pay_in_full_claim-Records ports c = search (claim_rules, Records-payment) depth 12
