-- ===== src/Reports/AuditTrailReport/Rows/Success.antt =====
-- When app/use_cases/generate_audit_trail_report.py gives a report.
use mathlib.Core.Logic.Or
use mathlib.Core.Bool.{Bool-set}
use mathlib.Core.List.{Mem, mem-append, mem-cons, mem-cons_self, mem-cons_of_mem, not-mem-nil}
use mathlib.Core.List.Perm
use laa_inquests_api.Prelude.{
  ◌≡◌, refl, Bool-cases, inl, inr, true, Option, some, List, [], ◌∷◌, ◌++◌, All, Result, ok, err,
  is_ok, ◌>>=◌, map, select, is_empty, arith,
}
use laa_inquests_api.Prelude.Int.{ℤ}
use laa_inquests_api.Text.{Text, eq_text, eq_text_refl}
use laa_inquests_api.Calendar.{Date, Datetime}
use laa_inquests_api.Calendar.Months.{IsDate}
use laa_inquests_api.Events.{EventValue}
use laa_inquests_api.AuditTrail.{
  AuditTrailEvent, application_overview_view_event, application_certificate_view_event,
  report_download_event,
}
use laa_inquests_api.AuditTrail.Catalogue.{EventDescriptionError, EventDescription, describe_event}
use laa_inquests_api.Store.History.{IsWritten}
use laa_inquests_api.Sorting.{mem-select, All-mem, All-imp}
use laa_inquests_api.Reports.DateRange.{window, FitsRange, resolve_report_window_iff}
use laa_inquests_api.Reports.Described.{described, IsWritten-described}
use laa_inquests_api.Reports.PaymentLines.{get, build_firm_name_lookup}
use laa_inquests_api.Reports.AuditTrailReport.{
  ApplicationPageType, overview, certificate, HistoryRow, ViewApplicationPagesAudit, ReportAudit,
  in_window, history_time, view_time, report_time, view_event, report_event, row_event, read_events,
}
use laa_inquests_api.Reports.AuditTrailReport.Order.{read_events-perm}
use laa_inquests_api.Reports.AuditTrailReport.Rows.{
  AuditReportError, firm_codes, build_audit_firm_name_lookup, build_audit_row, build_audit_rows,
  generate_audit_trail_report, row_cells,
}

-- The answer of a service that knows the name of every firm.
abbrev pub names_of : (Text → Text) → List Text → List (Text × Text)
names_of name codes = map (λ c. (c, name c)) codes

get_self :
    (name : Text → Text) (c : Text) (codes : List Text)
    → get eq_text c (names_of name (c ∷ codes)) ≡ some (name c)
get_self name c codes = rw (eq_text_refl c) refl

IsNamed : List (Text × Text) → Text → Type 0
IsNamed names c = (n : Text) × (get eq_text c names ≡ some n)

IsNamed-cons :
    (names : List (Text × Text)) (k v c : Text) → IsNamed names c → IsNamed ((k, v) ∷ names) c
unfolding IsNamed
IsNamed-cons names k v c (n, e) = elim (Bool-cases (eq_text k c)) [
  | inl t ↦ (v, rw (t) refl)
  | inr t ↦ (n, rw (t) e)
]

All-IsNamed-cons :
    (names : List (Text × Text)) (k v : Text) (codes : List Text)
    → All (IsNamed names) codes
    → All (IsNamed ((k, v) ∷ names)) codes
All-IsNamed-cons names k v [] h = tt
All-IsNamed-cons names k v (c ∷ codes) h =
    (IsNamed-cons names k v c h.0, All-IsNamed-cons names k v codes h.1)

names_of-IsNamed :
    (name : Text → Text) (codes : List Text) → All (IsNamed (names_of name codes)) codes
unfolding IsNamed
names_of-IsNamed name [] = tt
names_of-IsNamed name (c ∷ codes) = (
  (name c, get_self name c codes),
  All-IsNamed-cons _ c (name c) codes (names_of-IsNamed name codes),
)

build_firm_name_lookup-named :
    (names : List (Text × Text)) (codes : List Text)
    → All (IsNamed names) codes
    → build_firm_name_lookup names codes ≡ ok names
unfolding build_firm_name_lookup IsNamed
build_firm_name_lookup-named names [] h = refl
build_firm_name_lookup-named names (c ∷ codes) ((n, e), h) =
    ground (arith, build_firm_name_lookup-named names codes h)

lookup-ok :
    (get_firms_by_ids : List Text → Option (List (Text × Text))) (name : Text → Text)
    (events : List AuditTrailEvent)
    → ((codes : List Text) → get_firms_by_ids codes ≡ some (names_of name codes))
    → is_ok (build_audit_firm_name_lookup get_firms_by_ids events) ≡ true
unfolding build_audit_firm_name_lookup
lookup-ok get_firms_by_ids name events answers = elim (Bool-cases (is_empty (firm_codes events))) [
  | inl e ↦ rw (e) refl
  | inr e ↦
      rw
        (
          e,
          answers (firm_codes events),
          build_firm_name_lookup-named (names_of name (firm_codes events)) (firm_codes events)
              (names_of-IsNamed name (firm_codes events)),
        )
        refl
]

bind-is_ok :
    {E A B : Type 0} (r : Result E A) (f : A → Result E B)
    → is_ok r ≡ true
    → ((a : A) → is_ok (f a) ≡ true)
    → is_ok (r >>= f) ≡ true
bind-is_ok (ok a) f h k = k a
bind-is_ok (err e) f h k = absurd (ground arith)

module _ (str_amount : ℤ → Text) (str_other : EventValue → Text) where
  abbrev IsDescribable : AuditTrailEvent → Type 0
  IsDescribable e = is_ok (described str_amount str_other e) ≡ true

  row-is_ok :
      (e : AuditTrailEvent) (names : List (Text × Text))
      → IsDescribable e
      → is_ok (build_audit_row str_amount str_other e names) ≡ true
  unfolding build_audit_row described
  row-is_ok e names h = go (describe_event str_other e.event_reference e.event_data) h
    where
      go :
          (r : Result EventDescriptionError EventDescription)
          → is_ok r ≡ true
          → is_ok {E = AuditReportError} (elim r [
            | ok d ↦ ok (row_cells e names d)
            | err x ↦ err (laa_inquests_api.Reports.AuditTrailReport.Rows.description x)
          ])
            ≡ true
      go (ok d) k = refl
      go (err x) k = absurd (ground arith)

  rows-is_ok :
      (names : List (Text × Text)) (events : List AuditTrailEvent)
      → ((e : AuditTrailEvent) → Mem e events → IsDescribable e)
      → is_ok (build_audit_rows str_amount str_other events names) ≡ true
  unfolding build_audit_rows
  rows-is_ok names [] h = refl
  rows-is_ok names (e ∷ es) h =
      bind-is_ok (build_audit_row str_amount str_other e names) _
        (row-is_ok e names (h e mem-cons_self))
        λ row.
          bind-is_ok (build_audit_rows str_amount str_other es names) _
            (rows-is_ok names es (λ x m. h x (mem-cons_of_mem e m))) (λ rows. refl)

  images-IsDescribable :
      {A : Type 0} (event : A → AuditTrailEvent) (l : List A)
      → ((a : A) → Mem a l → IsDescribable (event a))
      → (y : AuditTrailEvent) → Mem y (map event l)
      → IsDescribable y
  images-IsDescribable event [] h y m = absurd (not-mem-nil m)
  images-IsDescribable event (a ∷ l) h y m =
      Or.elim (Bool-set _ _) (mem-cons.0 m) (λ e. rw (e) (h a mem-cons_self))
        (images-IsDescribable event l (λ b n. h b (mem-cons_of_mem a n)) y)

  append-IsDescribable :
      (l r : List AuditTrailEvent)
      → ((y : AuditTrailEvent) → Mem y l → IsDescribable y)
      → ((y : AuditTrailEvent) → Mem y r → IsDescribable y)
      → (y : AuditTrailEvent) → Mem y (l ++ r)
      → IsDescribable y
  append-IsDescribable l r hl hr y m =
      Or.elim (Bool-set _ _) ((mem-append {s = l} {t = r}).0 m) (hl y) (hr y)

  view-IsDescribable : (e : ViewApplicationPagesAudit) → IsDescribable (view_event e)
  unfolding described describe_event view_event application_overview_view_event
      application_certificate_view_event
  view-IsDescribable e = go e.page
    where
      go : (page : ApplicationPageType) → IsDescribable (view_event (record e { page = page }))
      go overview = refl
      go certificate = refl

  report-IsDescribable : (e : ReportAudit) → IsDescribable (report_event e)
  unfolding described describe_event report_download_event
  report-IsDescribable e = refl

  events-IsDescribable :
      (from_inclusive before_exclusive : Datetime) (history : List HistoryRow)
      (views : List ViewApplicationPagesAudit) (reports : List ReportAudit)
      → All (λ (row : HistoryRow). IsWritten row.event) history
      → (e : AuditTrailEvent)
      → Mem e
          (read_events str_amount str_other from_inclusive before_exclusive history views reports)
      → IsDescribable e
  events-IsDescribable from_inclusive before_exclusive history views reports written e m =
      let rows : List HistoryRow =
        select (λ row. in_window from_inclusive before_exclusive (history_time row)) history in
      let seen : List ViewApplicationPagesAudit =
        select (λ v. in_window from_inclusive before_exclusive (view_time v)) views in
      let read : List ReportAudit =
        select (λ v. in_window from_inclusive before_exclusive (report_time v)) reports in
      append-IsDescribable (map (row_event str_amount str_other) rows)
        (map view_event seen ++ map report_event read)
        (images-IsDescribable (row_event str_amount str_other) rows λ row n.
          All-mem (λ row. Bool-set _ _) history (All-imp told history written) row
            (mem-select (λ row. in_window from_inclusive before_exclusive (history_time row)) row
              history n))
        (append-IsDescribable (map view_event seen) (map report_event read)
          (images-IsDescribable view_event seen (λ v _. view-IsDescribable v))
          (images-IsDescribable report_event read (λ v _. report-IsDescribable v)))
        e
        ((Perm.mem_iff (
            read_events-perm str_amount str_other from_inclusive before_exclusive history views
              reports)).0
          m)
    where
      told :
          (row : HistoryRow)
          → IsWritten row.event
          → IsDescribable (row_event str_amount str_other row)
      told row w =
          IsWritten-described str_amount str_other row.event row.laa_reference row.firm_code
            row.office_id w

  -- Over a history whose events have the data that goes with their references, and with a service
  -- that knows the name of every firm, the audit trail report of a range of at most thirty days is
  -- generated.
  pub generate_audit_trail_report-is_ok :
      (get_firms_by_ids : List Text → Option (List (Text × Text))) (name : Text → Text)
      (history : List HistoryRow) (views : List ViewApplicationPagesAudit)
      (reports : List ReportAudit) (from_date to_date : Date)
      → IsDate from_date
      → IsDate to_date
      → FitsRange from_date to_date 30
      → All (λ (row : HistoryRow). IsWritten row.event) history
      → ((codes : List Text) → get_firms_by_ids codes ≡ some (names_of name codes))
      → is_ok (
          generate_audit_trail_report str_amount str_other get_firms_by_ids history views reports
            from_date to_date)
        ≡ true
  unfolding generate_audit_trail_report
  generate_audit_trail_report-is_ok get_firms_by_ids name history views reports from_date to_date hf
        ht fits written answers =
      rw
        ((resolve_report_window_iff from_date to_date 30 (window from_date to_date) hf ht).1
          (fits, refl))
        (bind-is_ok (build_audit_firm_name_lookup get_firms_by_ids _) _
          (lookup-ok get_firms_by_ids name _ answers)
          (λ names. rows-is_ok names _ (events-IsDescribable _ _ history views reports written)))
