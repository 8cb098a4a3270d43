-- ===== src/UseCases/Sequence.antt =====
-- Requests one after another, in any order and with any failures: each runs one of the use cases of
-- app/use_cases/, or gives up what its session has not committed.
use laa_inquests_api.Prelude.{◌≡◌, Bool, List, [], ◌∷◌, All, subst, sym}
use laa_inquests_api.Prelude.Int.{ℤ}
use laa_inquests_api.Text.{Text}
use laa_inquests_api.Application.{Address}
use laa_inquests_api.Applications.Requests.{Refusal, GrantApplicationUpdate}
use laa_inquests_api.Applications.Repository.{ApplicationCreate}
use laa_inquests_api.Events.{EventValue}
use laa_inquests_api.Records.{HistoryEvent}
use laa_inquests_api.Reports.Described.{IsDescribed, IsWritten-described}
use laa_inquests_api.Store.{Session, Env}
use laa_inquests_api.Store.Actions.{rollback}
use laa_inquests_api.Store.History.{Sound, IsWritten}
use laa_inquests_api.UseCases.Applications.{
  grant, refuse, change_public_bodies, create_note, create,
}
use laa_inquests_api.UseCases.Applications.Recorded.{
  grant-Records, refuse-Records, change_public_bodies-Records, create_note-Records, create-Records,
}
use laa_inquests_api.UseCases.CreateClaim
use laa_inquests_api.UseCases.CreateClaim.Phases.{Ports, CreateClaimCommand}
use laa_inquests_api.UseCases.History.Claims.{reject_claim-Records, pay_in_full_claim-Records}
use laa_inquests_api.UseCases.History.Submission.{create_claim-Records}
use laa_inquests_api.UseCases.PayInFullClaim
use laa_inquests_api.UseCases.PayInFullClaim.Extract.{ExtractPorts}
use laa_inquests_api.UseCases.RejectClaim

-- A request, with what the outside services answer.
pub data Request : Type 0 where
  submit_application : (Text → Bool) → ApplicationCreate → Text → List Text → Request
  grant_application : (Text → Address) → Text → GrantApplicationUpdate → Request
  refuse_application : Text → Refusal → Request
  change_parties : Text → List Text → Request
  add_note : Text → Text → Request
  submit_claim : Ports → CreateClaimCommand → Request
  reject_claim : Bool → RejectClaim.RejectClaimCommand → Request
  pay_claim : ExtractPorts → PayInFullClaim.PayInFullClaimCommand → Request

-- The session after a request, whatever it returned.
unfoldable pub serve : Request → Env → Session → Session
serve (submit_application exists r firm offices) env s = (create exists r firm offices env s).1
serve (grant_application get_office_address reference r) env s =
    (grant get_office_address reference r env s).1
serve (refuse_application reference r) env s = (refuse reference r env s).1
serve (change_parties reference bodies) env s = (change_public_bodies reference bodies env s).1
serve (add_note reference t) env s = (create_note reference t env s).1
serve (submit_claim ports c) env s = (CreateClaim.execute ports c env s).1
serve (reject_claim notify c) env s = (RejectClaim.execute notify c env s).1
serve (pay_claim ports c) env s = (PayInFullClaim.execute ports c env s).1

pub data Step : Session → Session → Type 0 where
  request : (env : Env) (s : Session) (r : Request) → Step s (serve r env s)
  close : (s : Session) → Step s (rollback s)

pub data Reach (s : Session) : Session → Type 0 where
  here : Reach s s
  next : {t u : Session} → Reach s t → Step t u → Reach s u

serve-Sound : (r : Request) (env : Env) (s : Session) → Sound s → Sound (serve r env s)
unfolding serve
serve-Sound (submit_application exists r firm offices) = (create-Records exists r firm offices).at
serve-Sound (grant_application get_office_address reference r) =
    (grant-Records get_office_address reference r).at
serve-Sound (refuse_application reference r) = (refuse-Records reference r).at
serve-Sound (change_parties reference bodies) = (change_public_bodies-Records reference bodies).at
serve-Sound (add_note reference t) = (create_note-Records reference t).at
serve-Sound (submit_claim ports c) = (create_claim-Records ports c).at
serve-Sound (reject_claim notify c) = (reject_claim-Records notify c).at
serve-Sound (pay_claim ports c) = (pay_in_full_claim-Records ports c).at

Step-Sound : {s t : Session} → Step s t → Sound s → Sound t
Step-Sound (request env s r) h = serve-Sound r env s h
Step-Sound (close s) h = record { committed = h.committed; working = h.committed }

Reach-Sound : {s t : Session} → Sound s → Reach s t → Sound t
Reach-Sound h here = h
Reach-Sound h (next r step) = Step-Sound step (Reach-Sound h r)

All-IsDescribed :
    (str_amount : ℤ → Text) (str_other : EventValue → Text) (es : List HistoryEvent)
    → All IsWritten es
    → All (IsDescribed str_amount str_other) es
All-IsDescribed str_amount str_other [] h = tt
All-IsDescribed str_amount str_other (e ∷ es) h = (
  λ laa_reference firm_code office_id.
      IsWritten-described str_amount str_other e laa_reference firm_code office_id h.0,
  All-IsDescribed str_amount str_other es h.1,
)

-- From empty histories, requests in any order and with any failures leave a committed history of
-- which the audit trail can describe every event.
pub Reach-IsDescribed :
    (str_amount : ℤ → Text) (str_other : EventValue → Text) (s t : Session)
    → s.committed.history ≡ []
    → s.working.history ≡ []
    → Reach s t
    → All (IsDescribed str_amount str_other) t.committed.history
Reach-IsDescribed str_amount str_other s t hc hw r =
    let none_yet : Sound s = record {
      committed = subst (All IsWritten) (sym hc) tt;
      working = subst (All IsWritten) (sym hw) tt;
    } in
    All-IsDescribed str_amount str_other t.committed.history (Reach-Sound none_yet r).committed
