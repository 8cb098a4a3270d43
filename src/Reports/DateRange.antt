-- ===== src/Reports/DateRange.antt =====
-- The window of a report: app/use_cases/report_date_range.py.
use laa_inquests_api.Prelude.{
  ℕ, ◌+◌, ◌-◌, ◌*◌, ◌≤◌, ◌<◌, ◌≡◌, ◌↔◌, arith, Bool, some, ltb, false, ◌&&◌, ◌==◌, if◌then◌else◌,
  Result, ok, err,
}
use laa_inquests_api.Prelude.Int.{pos, ◌≤ℤ◌, ◌<ℤ◌, ◌-ℤ◌}
use laa_inquests_api.Calendar.{Date, Datetime, before, to_ordinal, instant, day_micros}
use laa_inquests_api.Calendar.Months.{IsDate}
use laa_inquests_api.Calendar.Days.{next_day, to_ordinal-next_day}
use laa_inquests_api.Calendar.Order.{before-to_ordinal}

-- `InvalidDateRangeError` with its two messages, and the `OverflowError` of the day after
-- `date.max`.
pub data DateRangeError : Type 0 where
  from_after_to : DateRangeError
  range_too_long : ℕ → DateRangeError
  date_out_of_range : DateRangeError

-- `date.max`
abbrev is_last_date : Date → Bool
is_last_date d = (d.year == 9999) && (d.month == 12) && (d.day == 31)

-- `datetime.combine(day, time.min, tzinfo=UTC)`
abbrev pub start_of_day : Date → Datetime
start_of_day d = record { date = d; micros = 0; utc_offset = some (pos 0) }

unfoldable pub resolve_report_window : Date → Date → ℕ → Result DateRangeError (Datetime × Datetime)
unfolding next_day
resolve_report_window from_date to_date max_days =
    if before to_date from_date
    then err from_after_to
    else (if ltb max_days (to_ordinal to_date - to_ordinal from_date + 1)
        then err (range_too_long max_days)
        else (if is_last_date to_date
            then err date_out_of_range
            else ok (start_of_day from_date, start_of_day (next_day to_date))))

-- The ranges of dates that a report of so many days accepts.
pub record FitsRange (from_date to_date : Date) (max_days : ℕ) : Type 0 where
  pub in_order : to_ordinal from_date ≤ to_ordinal to_date
  pub short : to_ordinal to_date < to_ordinal from_date + max_days
  pub not_last : is_last_date to_date ≡ false

not_before_iff :
    (a b : Date) → IsDate a → IsDate b → (before a b ≡ false) ↔ (to_ordinal b ≤ to_ordinal a)
not_before_iff a b ha hb = ground (arith, before-to_ordinal a b ha hb)

in_days_iff :
    (from_date to_date d : Date)
    → IsDate from_date
    → IsDate to_date
    → IsDate d
    → ((to_ordinal from_date ≤ to_ordinal d) × (to_ordinal d < to_ordinal to_date + 1))
      ↔ ((before d from_date ≡ false) × (before to_date d ≡ false))
in_days_iff from_date to_date d hf ht hd =
    ground (arith, not_before_iff d from_date hd hf, not_before_iff to_date d ht hd)

-- A time of the UTC day lies from the start of one day to the start of another.
within_days :
    (n m k t : ℕ)
    → t < day_micros
    → ((pos (n * day_micros + 0) -ℤ pos 0 ≤ℤ pos (k * day_micros + t) -ℤ pos 0)
        × (pos (k * day_micros + t) -ℤ pos 0 <ℤ pos (m * day_micros + 0) -ℤ pos 0))
      ↔ ((n ≤ k) × (k < m))
unfolding ◌-ℤ◌
within_days n m k t h = ground arith

abbrev pub window : Date → Date → Datetime × Datetime
window from_date to_date = (start_of_day from_date, start_of_day (next_day to_date))

-- A window is returned exactly when the dates are in order, make up at most the largest number of
-- days and do not end with the calendar, and then it is the one from the start of the first day to
-- the start of the day after the last: in every other case, the range is refused.
pub resolve_report_window_iff :
    (from_date to_date : Date) (max_days : ℕ) (w : Datetime × Datetime)
    → IsDate from_date
    → IsDate to_date
    → (resolve_report_window from_date to_date max_days ≡ ok w)
      ↔ (FitsRange from_date to_date max_days × (window from_date to_date ≡ w))
unfolding resolve_report_window
resolve_report_window_iff from_date to_date max_days w hf ht =
    ground (arith, before-to_ordinal to_date from_date ht hf)

window_of :
    (from_date to_date : Date) (max_days : ℕ) (w : Datetime × Datetime)
    → resolve_report_window from_date to_date max_days ≡ ok w
    → w ≡ window from_date to_date
unfolding resolve_report_window
window_of from_date to_date max_days w e = ground arith

-- The window of a range holds exactly the times whose UTC date is one of the days of the range.
pub resolve_report_window-covers :
    (from_date to_date : Date) (max_days : ℕ) (w : Datetime × Datetime) (d : Date) (t : ℕ)
    → IsDate from_date
    → IsDate to_date
    → IsDate d
    → t < day_micros
    → resolve_report_window from_date to_date max_days ≡ ok w
    → let time : Datetime = record { date = d; micros = t; utc_offset = some (pos 0) } in
      ((instant w.0 ≤ℤ instant time) × (instant time <ℤ instant w.1))
      ↔ ((before d from_date ≡ false) × (before to_date d ≡ false))
unfolding instant
resolve_report_window-covers from_date to_date max_days w d t hf ht hd short e =
    let times =
      within_days (to_ordinal from_date) (to_ordinal to_date + 1) (to_ordinal d) t short in
    let days = in_days_iff from_date to_date d hf ht hd in
    rw (window_of from_date to_date max_days w e, to_ordinal-next_day to_date ht)
      (λ h. days.0 (times.0 h), λ h. times.1 (days.1 h))
