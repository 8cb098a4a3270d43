-- ===== src/Calendar.antt =====
-- Dates and times: app/domain/date_utils.py, `_as_utc` of app/domain/claim.py, and Python's
-- proleptic Gregorian calendar.
pub mod Months
pub mod Days
pub mod Order
pub mod Utc
use laa_inquests_api.Prelude.{
  ℕ, ◌+◌, ◌-◌, ◌*◌, ◌/◌, ◌%◌, Bool, not, ◌&&◌, ◌||◌, Option, none, some, min, ltb, ◌==◌,
  if◌then◌else◌,
}
use laa_inquests_api.Prelude.Int.{ℤ, pos, ◌-ℤ◌}

-- `datetime.date`
pub record Date : Type 0 where
  pub year : ℕ
  pub month : ℕ
  pub day : ℕ

unfoldable pub is_leap : ℕ → Bool
is_leap y = (y % 4 == 0) && (not (y % 100 == 0) || (y % 400 == 0))

-- `calendar.monthrange(year, month)[1]`
unfoldable pub days_in_month : ℕ → ℕ → ℕ
unfolding is_leap
days_in_month y m =
    if m == 2
    then (if is_leap y then 29 else 28)
    else (if (m == 4) || (m == 6) || (m == 9) || (m == 11) then 30 else 31)

unfoldable pub add_calendar_months : Date → ℕ → Date
add_calendar_months start months =
    let month_index : ℕ = start.month - 1 + months in
    let y : ℕ = start.year + month_index / 12 in
    let m : ℕ = month_index % 12 + 1 in
    record { year = y; month = m; day = min start.day (days_in_month y m) }

-- `a < b`, for dates
unfoldable pub before : Date → Date → Bool
before a b =
    ltb a.year b.year
    || ((a.year == b.year) && (ltb a.month b.month || ((a.month == b.month) && ltb a.day b.day)))

-- The days before the month, within its year.
unfoldable pub days_before_month : ℕ → ℕ → ℕ
unfolding days_in_month
days_before_month y m =
    (if ltb 1 m then 31 else 0)
    + (if ltb 2 m then days_in_month y 2 else 0)
    + (if ltb 3 m then 31 else 0)
    + (if ltb 4 m then 30 else 0)
    + (if ltb 5 m then 31 else 0)
    + (if ltb 6 m then 30 else 0)
    + (if ltb 7 m then 31 else 0)
    + (if ltb 8 m then 31 else 0)
    + (if ltb 9 m then 30 else 0)
    + (if ltb 10 m then 31 else 0)
    + (if ltb 11 m then 30 else 0)

-- `date.toordinal`, with day 1 the first of January of year 1
unfoldable pub to_ordinal : Date → ℕ
unfolding days_before_month
to_ordinal d =
    let y : ℕ = d.year - 1 in
    y * 365 + y / 4 - y / 100 + y / 400 + days_before_month d.year d.month + d.day

-- A `datetime.datetime`: its date, its time of day in microseconds, and its offset from UTC in
-- microseconds, which a timezone-naive one lacks.
pub record Datetime : Type 0 where
  pub date : Date
  pub micros : ℕ
  pub utc_offset : Option ℤ

-- `_as_utc` of app/domain/claim.py
unfoldable pub as_utc : Datetime → Datetime
as_utc dt = elim dt.utc_offset [ none ↦ record dt { utc_offset = some (pos 0) } | some _ ↦ dt ]

abbrev pub day_micros : ℕ
day_micros = 86400000000

abbrev offset_or_zero : Option ℤ → ℤ
offset_or_zero none = pos 0
offset_or_zero (some o) = o

-- The point of time by which aware values compare, in microseconds.
unfoldable pub instant : Datetime → ℤ
unfolding to_ordinal
instant dt = pos (to_ordinal dt.date * day_micros + dt.micros) -ℤ offset_or_zero dt.utc_offset
