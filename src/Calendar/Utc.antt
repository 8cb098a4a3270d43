-- ===== src/Calendar/Utc.antt =====
-- `as_utc` of app/domain/date_utils.py: naive times are taken to be UTC, others are converted.
use laa_inquests_api.Prelude.{
  ℕ, suc, ◌+◌, ◌-◌, ◌*◌, ◌≤◌, ◌<◌, ◌≡◌, refl, arith, Bool-cases, ltb→lt, inl, inr, Option, none,
  some, ltb, if◌then◌else◌,
}
use laa_inquests_api.Prelude.Int.{ℤ, pos, negsuc, pos_part, neg_part, ◌-ℤ◌}
use laa_inquests_api.Calendar.{Date, Datetime, to_ordinal, instant, day_micros}
use laa_inquests_api.Calendar.Months.{IsDate}
use laa_inquests_api.Calendar.Days.{
  next_day, previous_day, to_ordinal-next_day, to_ordinal-previous_day,
}

-- `value.astimezone(UTC)`, for a value with an offset of less than a day
unfoldable pub astimezone : Datetime → ℤ → Datetime
astimezone value (pos o) =
    if ltb value.micros o
    then record {
      date = previous_day value.date;
      micros = value.micros + day_micros - o;
      utc_offset = some (pos 0);
    }
    else record { date = value.date; micros = value.micros - o; utc_offset = some (pos 0) }
astimezone value (negsuc n) =
    if ltb (value.micros + suc n) day_micros
    then record { date = value.date; micros = value.micros + suc n; utc_offset = some (pos 0) }
    else record {
      date = next_day value.date;
      micros = value.micros + suc n - day_micros;
      utc_offset = some (pos 0);
    }

unfoldable pub as_utc : Datetime → Datetime
unfolding astimezone
as_utc value = elim value.utc_offset [
  | none ↦ record value { utc_offset = some (pos 0) }
  | some o ↦ astimezone value o
]

abbrev pub FitsOffset : Option ℤ → Type 0
FitsOffset none = Unit
FitsOffset (some o) = (pos_part o < day_micros) × (neg_part o < day_micros)

-- The values that `datetime.datetime` accepts, after the first day of year 1, whose conversion may
-- lead out of the calendar.
pub record IsDatetime (value : Datetime) : Type 0 where
  pub date : IsDate value.date
  pub later : 2 ≤ to_ordinal value.date
  pub micros : value.micros < day_micros
  pub utc_offset : FitsOffset value.utc_offset

minus_positive : (a b o : ℕ) → a + o ≡ b → pos a -ℤ pos 0 ≡ pos b -ℤ pos o
unfolding ◌-ℤ◌
minus_positive a b o h = ground arith

minus_negative : (a b n : ℕ) → a ≡ b + suc n → pos a -ℤ pos 0 ≡ pos b -ℤ negsuc n
unfolding ◌-ℤ◌
minus_negative a b n h = ground arith

IsUtcOf : Datetime → Datetime → Type 0
IsUtcOf u value =
    (instant u ≡ instant value) × (u.utc_offset ≡ some (pos 0)) × (u.micros < day_micros)

astimezone-IsUtcOf :
    (value : Datetime) (o : ℤ)
    → IsDatetime value
    → FitsOffset (some o)
    → value.utc_offset ≡ some o
    → IsUtcOf (astimezone value o) value
unfolding astimezone instant IsUtcOf
astimezone-IsUtcOf value (pos o) h fits e = elim (Bool-cases (ltb value.micros o)) [
  | inl t ↦
      rw (t, e)
        (
          minus_positive
              (to_ordinal (previous_day value.date) * day_micros + (value.micros + day_micros - o))
              (to_ordinal value.date * day_micros + value.micros) o
              (omega (arith, to_ordinal-previous_day value.date h.date h.later)),
          refl,
          ground arith,
        )
  | inr t ↦
      rw (t, e)
        (
          minus_positive (to_ordinal value.date * day_micros + (value.micros - o))
              (to_ordinal value.date * day_micros + value.micros) o (ground arith),
          refl,
          ground (arith, h.micros),
        )
]
astimezone-IsUtcOf value (negsuc n) h fits e =
    elim (Bool-cases (ltb (value.micros + suc n) day_micros)) [
      | inl t ↦
          rw (t, e)
            (
              minus_negative (to_ordinal value.date * day_micros + (value.micros + suc n))
                  (to_ordinal value.date * day_micros + value.micros) n (omega arith),
              refl,
              ltb→lt (value.micros + suc n) day_micros t,
            )
      | inr t ↦
          let reached : day_micros ≤ value.micros + suc n = ground arith in
          rw (t, e)
            (
              minus_negative
                  (to_ordinal (next_day value.date) * day_micros
                    + (value.micros + suc n - day_micros))
                  (to_ordinal value.date * day_micros + value.micros) n
                  (omega (arith, to_ordinal-next_day value.date h.date)),
              refl,
              omega (arith, h.micros),
            )
    ]

as_utc-IsUtcOf :
    (d : Date) (m : ℕ) (o : Option ℤ)
    → let value : Datetime = record { date = d; micros = m; utc_offset = o } in
      IsDatetime value → IsUtcOf (as_utc value) value
unfolding as_utc IsUtcOf instant
as_utc-IsUtcOf d m none h = (refl, refl, h.micros)
as_utc-IsUtcOf d m (some o) h =
    let value : Datetime = record { date = d; micros = m; utc_offset = some o } in
    astimezone-IsUtcOf value o h h.utc_offset refl

-- The conversion to UTC keeps the point of time and gives an aware value of offset zero, with a
-- time of day within the day.
pub as_utc-instant :
    (value : Datetime)
    → IsDatetime value
    → (instant (as_utc value) ≡ instant value)
      × ((as_utc value).utc_offset ≡ some (pos 0))
      × ((as_utc value).micros < day_micros)
unfolding IsUtcOf
as_utc-instant value h = as_utc-IsUtcOf value.date value.micros value.utc_offset h
