-- ===== src/Reports/AuditTrailReport/Order.antt =====
-- The order and the completeness of the events of app/use_cases/generate_audit_trail_report.py.
use mathlib.Core.List.{Mem, Perm}
use mathlib.Core.List.Perm
use native.Mathlib.Bridge.{le_prop}
use laa_inquests_api.Prelude.{
  ℕ, ◌-◌, ◌≡◌, refl, ◌∙◌, ap, Option, some, List, All, ◌++◌, map, select, ltb, false, arith,
}
use laa_inquests_api.Prelude.Int.{ℤ, pos, ◌≤ℤ◌}
use laa_inquests_api.Text.{Text}
use laa_inquests_api.Calendar.{Date, Datetime, instant}
use laa_inquests_api.Calendar.Utc.{as_utc, astimezone, IsDatetime, as_utc-instant}
use laa_inquests_api.Events.{EventValue}
use laa_inquests_api.AuditTrail.{
  AuditTrailEvent, history_event, application_overview_view_event,
  application_certificate_view_event, report_download_event,
}
use laa_inquests_api.Sorting.{
  order_by-perm, order_by-IsSorted, merge-perm, merge-IsSorted, map-IsSorted, mem-select, All-mem,
  All-imp, IsSorted,
}
use laa_inquests_api.Reports.Described.{audit_event}
use laa_inquests_api.Reports.AuditTrailReport.{
  ApplicationPageType, overview, certificate, HistoryRow, ViewApplicationPagesAudit, ReportAudit,
  in_window, rows_between, history_time, view_time, report_time, view_event, report_event,
  row_event, occurred, read_events, iter_history_events, iter_application_view_events,
  iter_report_events,
}

-- A second conversion to UTC keeps the point of time.
abbrev utc_time : Date → ℕ → Option ℤ → Datetime
utc_time d m o = record { date = d; micros = m; utc_offset = o }

as_utc-utc_time :
    (d : Date) (m : ℕ) → as_utc (utc_time d m (some (pos 0))) ≡ utc_time d m (some (pos 0))
unfolding as_utc astimezone
as_utc-utc_time d m =
    let whole : ltb m 0 ≡ false = ground arith in
    let kept : m - 0 ≡ m = omega arith in rw (whole, kept) refl

as_utc-fixed :
    (d : Date) (m : ℕ) (o : Option ℤ) → o ≡ some (pos 0) → as_utc (utc_time d m o) ≡ utc_time d m o
as_utc-fixed d m o e = rw (e) (as_utc-utc_time d m)

as_utc-utc : (u : Datetime) → u.utc_offset ≡ some (pos 0) → instant (as_utc u) ≡ instant u
as_utc-utc u e = ap instant (as_utc-fixed u.date u.micros u.utc_offset e)

as_utc_twice : (t : Datetime) → IsDatetime t → instant (as_utc (as_utc t)) ≡ instant t
as_utc_twice t h = let once = as_utc-instant t h in as_utc-utc (as_utc t) once.1 ∙ once.0

-- The rows of a table in a window, as events.
module _ {A : Type 0} (time : A → Datetime) (event : A → AuditTrailEvent)
    (same : (a : A) → occurred (event a) ≡ instant (as_utc (as_utc (time a))))
    (from_inclusive before_exclusive : Datetime) where
  at_time : (a : A) → IsDatetime (time a) → occurred (event a) ≡ instant (time a)
  at_time a h = same a ∙ as_utc_twice (time a) h

  stream-IsSorted :
      (rows : List A)
      → All (λ a. IsDatetime (time a)) rows
      → IsSorted occurred (map event (rows_between time from_inclusive before_exclusive rows))
  stream-IsSorted rows proper =
      map-IsSorted (λ a. instant (time a)) occurred event
        (λ a m. All-mem (λ a. le_prop) rows (All-imp not_later rows proper) a (in_rows a m))
        (λ a m. All-mem (λ a. le_prop) rows (All-imp not_earlier rows proper) a (in_rows a m))
        (order_by-IsSorted (λ a. instant (time a)) _)
    where
      not_later : (a : A) → IsDatetime (time a) → occurred (event a) ≤ℤ instant (time a)
      not_later a h = rw (at_time a h) (omega arith)

      not_earlier : (a : A) → IsDatetime (time a) → instant (time a) ≤ℤ occurred (event a)
      not_earlier a h = rw (at_time a h) (omega arith)

      in_rows :
          (a : A) → Mem a (rows_between time from_inclusive before_exclusive rows) → Mem a rows
      in_rows a m = mem-select _ a rows ((Perm.mem_iff (order_by-perm _ _)).0 m)

  stream-perm :
      (rows : List A)
      → Perm
          (map event (rows_between time from_inclusive before_exclusive rows))
          (map event (select (λ a. in_window from_inclusive before_exclusive (time a)) rows))
  stream-perm rows = Perm.map event (order_by-perm (λ a. instant (time a)) _)

-- `str_amount` and `str_other` are the texts of amounts and of values that are no texts.
module _ (str_amount : ℤ → Text) (str_other : EventValue → Text) where
  -- The events of the window, table by table.
  abbrev pub events_between :
      Datetime
      → Datetime
      → List HistoryRow
      → List ViewApplicationPagesAudit
      → List ReportAudit
      → List AuditTrailEvent
  events_between from_inclusive before_exclusive history views reports =
      map (row_event str_amount str_other)
        (select (λ row. in_window from_inclusive before_exclusive (history_time row)) history)
      ++ (map view_event
            (select (λ e. in_window from_inclusive before_exclusive (view_time e)) views)
          ++ map report_event
              (select (λ e. in_window from_inclusive before_exclusive (report_time e)) reports))

  same_view :
      (e : ViewApplicationPagesAudit)
      → occurred (view_event e) ≡ instant (as_utc (as_utc (view_time e)))
  unfolding view_event application_overview_view_event application_certificate_view_event
  same_view e = go e.page
    where
      go :
          (page : ApplicationPageType)
          → occurred (view_event (record e { page = page }))
            ≡ instant (as_utc (as_utc (view_time e)))
      go overview = refl
      go certificate = refl

  same_history :
      (row : HistoryRow)
      → occurred (row_event str_amount str_other row) ≡ instant (as_utc (as_utc (history_time row)))
  unfolding audit_event history_event
  same_history row = refl

  same_report :
      (e : ReportAudit) → occurred (report_event e) ≡ instant (as_utc (as_utc (report_time e)))
  unfolding report_download_event
  same_report e = refl

  pub read_events-perm :
      (from_inclusive before_exclusive : Datetime) (history : List HistoryRow)
      (views : List ViewApplicationPagesAudit) (reports : List ReportAudit)
      → Perm
          (read_events str_amount str_other from_inclusive before_exclusive history views reports)
          (events_between from_inclusive before_exclusive history views reports)
  unfolding read_events iter_history_events iter_application_view_events iter_report_events
  read_events-perm from_inclusive before_exclusive history views reports =
      Perm.trans (merge-perm occurred _ _) (
        Perm.append
          (stream-perm history_time (row_event str_amount str_other) same_history from_inclusive
            before_exclusive history)
          (Perm.trans (merge-perm occurred _ _) (
            Perm.append
              (stream-perm view_time view_event same_view from_inclusive before_exclusive views)
              (stream-perm report_time report_event same_report from_inclusive before_exclusive
                reports))))

  -- The events of the audit trail report are those of the three tables whose time is in the window,
  -- and they are in the order of their times.
  pub read_events_exact :
      (from_inclusive before_exclusive : Datetime) (history : List HistoryRow)
      (views : List ViewApplicationPagesAudit) (reports : List ReportAudit)
      → All (λ row. IsDatetime (history_time row)) history
      → All (λ e. IsDatetime (view_time e)) views
      → All (λ e. IsDatetime (report_time e)) reports
      → let events : List AuditTrailEvent =
          read_events str_amount str_other from_inclusive before_exclusive history views reports in
        IsSorted occurred events
        × Perm events (events_between from_inclusive before_exclusive history views reports)
  unfolding read_events iter_history_events iter_application_view_events iter_report_events
  read_events_exact from_inclusive before_exclusive history views reports hh hv hr = (
    merge-IsSorted occurred _ _
        (stream-IsSorted history_time (row_event str_amount str_other) same_history from_inclusive
          before_exclusive history hh)
        (merge-IsSorted occurred _ _
          (stream-IsSorted view_time view_event same_view from_inclusive before_exclusive views hv)
          (stream-IsSorted report_time report_event same_report from_inclusive before_exclusive
            reports hr)),
    read_events-perm from_inclusive before_exclusive history views reports,
  )
