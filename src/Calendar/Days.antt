-- ===== src/Calendar/Days.antt =====
-- Days in a row: `date + timedelta(days=1)`, and `as_utc` of app/domain/date_utils.py.
use laa_inquests_api.Prelude.{
  ℕ, zero, suc, ◌+◌, ◌-◌, ◌*◌, ◌/◌, ◌≤◌, ◌<◌, ◌≡◌, refl, sym, ap, ◌∙◌, arith, Bool-cases, inl, inr,
  false, ==_iff, ltb, ◌==◌, if◌then◌else◌,
}
use laa_inquests_api.Calendar.{Date, days_in_month, to_ordinal, is_leap, days_before_month}
use laa_inquests_api.Calendar.Months.{IsDate}

unfoldable pub next_day : Date → Date
next_day d =
    if ltb d.day (days_in_month d.year d.month)
    then record d { day = d.day + 1 }
    else (if d.month == 12
        then record { year = d.year + 1; month = 1; day = 1 }
        else record { year = d.year; month = d.month + 1; day = 1 })

unfoldable pub previous_day : Date → Date
previous_day d =
    if ltb 1 d.day
    then record d { day = d.day - 1 }
    else (if d.month == 1 then record { year = d.year - 1; month = 12; day = 31 } else record {
      year = d.year;
      month = d.month - 1;
      day = days_in_month d.year (d.month - 1);
    })

pub days_before_next_month :
    (y m : ℕ)
    → 1 ≤ m
    → m < 12
    → days_before_month y (m + 1) ≡ days_before_month y m + days_in_month y m
unfolding days_before_month days_in_month
days_before_next_month y zero h k = ground arith
days_before_next_month y (suc zero) h k = ground arith
days_before_next_month y (suc (suc zero)) h k = ground arith
days_before_next_month y (suc (suc (suc zero))) h k = ground arith
days_before_next_month y (suc (suc (suc (suc zero)))) h k = ground arith
days_before_next_month y (suc (suc (suc (suc (suc zero))))) h k = ground arith
days_before_next_month y (suc (suc (suc (suc (suc (suc zero)))))) h k = ground arith
days_before_next_month y (suc (suc (suc (suc (suc (suc (suc zero))))))) h k = ground arith
days_before_next_month y (suc (suc (suc (suc (suc (suc (suc (suc zero)))))))) h k = ground arith
days_before_next_month y (suc (suc (suc (suc (suc (suc (suc (suc (suc zero))))))))) h k =
    ground arith
days_before_next_month y (suc (suc (suc (suc (suc (suc (suc (suc (suc (suc zero)))))))))) h k =
    ground arith
days_before_next_month y (suc (suc (suc (suc (suc (suc (suc (suc (suc (suc (suc zero))))))))))) h
      k =
    ground arith
days_before_next_month y (suc (suc (suc (suc (suc (suc (suc (suc (suc (suc (suc (suc m)))))))))))) h
      k =
    absurd (omega arith)

pub days_of_year : (y : ℕ) → days_before_month y 12 + 31 ≡ (if is_leap y then 366 else 365)
unfolding days_before_month days_in_month
days_of_year y = ground arith

days_before_january : (y : ℕ) → days_before_month y 1 ≡ 0
unfolding days_before_month
days_before_january y = refl

days_before_year_step :
    (y : ℕ)
    → 1 ≤ y
    → y * 365 + y / 4 - y / 100 + y / 400
      ≡ (y - 1) * 365
        + (y - 1) / 4
        - (y - 1) / 100
        + (y - 1) / 400
        + (if is_leap y then 366 else 365)
unfolding is_leap
days_before_year_step y h = ground arith

ordinal_day_step :
    (y m d : ℕ)
    → to_ordinal (record { year = y; month = m; day = d + 1 })
      ≡ to_ordinal (record { year = y; month = m; day = d }) + 1
unfolding to_ordinal
ordinal_day_step y m d = omega arith

not_below : (a b : ℕ) → a ≤ b → ltb a b ≡ false → a ≡ b
not_below a b h e = ground arith

pub days_in_december : (y : ℕ) → days_in_month y 12 ≡ 31
unfolding days_in_month
days_in_december y = refl

next_year_ordinal :
    (y : ℕ)
    → 1 ≤ y
    → to_ordinal (record { year = y + 1; month = 1; day = 1 })
      ≡ to_ordinal (record { year = y; month = 12; day = 31 }) + 1
unfolding to_ordinal
next_year_ordinal y h =
    omega (arith, days_of_year y, days_before_january (y + 1), days_before_year_step y h)

next_month_ordinal :
    (y m : ℕ)
    → 1 ≤ m
    → m < 12
    → to_ordinal (record { year = y; month = m + 1; day = 1 })
      ≡ to_ordinal (record { year = y; month = m; day = days_in_month y m }) + 1
unfolding to_ordinal
next_month_ordinal y m h k = omega (arith, days_before_next_month y m h k)

-- The day after the last day of a month.
month_end_ordinal :
    (y m d : ℕ)
    → 1 ≤ y
    → 1 ≤ m
    → m ≤ 12
    → d ≡ days_in_month y m
    → to_ordinal (
        if m == 12
        then record { year = y + 1; month = 1; day = 1 }
        else record { year = y; month = m + 1; day = 1 })
      ≡ to_ordinal (record { year = y; month = m; day = d }) + 1
month_end_ordinal y m d hy hm h12 e = elim (Bool-cases (m == 12)) [
  | inl t ↦
      let last : m ≡ 12 = (==_iff m 12).0 t in
      rw (t, e, last, days_in_december y) (next_year_ordinal y hy)
  | inr t ↦ rw (t, e) (next_month_ordinal y m hm (ground arith))
]

-- Adding a day to a date adds one to its ordinal.
pub to_ordinal-next_day : (d : Date) → IsDate d → to_ordinal (next_day d) ≡ to_ordinal d + 1
unfolding next_day
to_ordinal-next_day d h = elim (Bool-cases (ltb d.day (days_in_month d.year d.month))) [
  | inl e ↦ rw (e) (ordinal_day_step d.year d.month d.day)
  | inr e ↦ rw (e) (
      month_end_ordinal d.year d.month d.day h.year_pos h.month_pos h.month_le
        (not_below d.day (days_in_month d.year d.month) h.day_le e))
]

previous_year_ordinal :
    (y : ℕ)
    → 2 ≤ y
    → to_ordinal (record { year = y - 1; month = 12; day = 31 }) + 1
      ≡ to_ordinal (record { year = y; month = 1; day = 1 })
unfolding to_ordinal
previous_year_ordinal y h =
    let back : y - 1 + 1 ≡ y = omega arith in
    omega (
      arith,
      days_of_year (y - 1),
      days_before_january y,
      days_before_year_step (y - 1) (omega arith),
      ap (λ z. (z - 1) * 365 + (z - 1) / 4 - (z - 1) / 100 + (z - 1) / 400) back,
    )

previous_month_ordinal :
    (y m : ℕ)
    → 2 ≤ m
    → m ≤ 12
    → to_ordinal (record { year = y; month = m - 1; day = days_in_month y (m - 1) }) + 1
      ≡ to_ordinal (record { year = y; month = m; day = 1 })
unfolding to_ordinal
previous_month_ordinal y m h k =
    let back : m - 1 + 1 ≡ m = omega arith in
    omega (
      arith,
      days_before_next_month y (m - 1) (omega arith) (omega arith),
      ap (days_before_month y) back,
    )

second_year :
    (y m d : ℕ)
    → m ≡ 1
    → d ≡ 1
    → 1 ≤ y
    → 2 ≤ to_ordinal (record { year = y; month = m; day = d })
    → 2 ≤ y
unfolding to_ordinal
second_year y m d hm hd hy later = grind (arith, days_before_january y, ap (days_before_month y) hm)

month_start_ordinal :
    (y m d : ℕ)
    → 1 ≤ y
    → 1 ≤ m
    → m ≤ 12
    → d ≡ 1
    → 2 ≤ to_ordinal (record { year = y; month = m; day = d })
    → to_ordinal (
          if m == 1
          then record { year = y - 1; month = 12; day = 31 }
          else record { year = y; month = m - 1; day = days_in_month y (m - 1) })
        + 1
      ≡ to_ordinal (record { year = y; month = m; day = d })
month_start_ordinal y m d hy hm h12 e later = elim (Bool-cases (m == 1)) [
  | inl t ↦
      let first : m ≡ 1 = (==_iff m 1).0 t in
      rw (t, e, first) (previous_year_ordinal y (second_year y m d first e hy later))
  | inr t ↦ rw (t, e) (previous_month_ordinal y m (ground arith) h12)
]

-- Taking a day off a date takes one off its ordinal.
pub to_ordinal-previous_day :
    (d : Date) → IsDate d → 2 ≤ to_ordinal d → to_ordinal (previous_day d) + 1 ≡ to_ordinal d
unfolding previous_day
to_ordinal-previous_day d h later = elim (Bool-cases (ltb 1 d.day)) [
  | inl e ↦ rw (e) (
      sym (ordinal_day_step d.year d.month (d.day - 1))
      ∙ ap (λ x. to_ordinal (record { year = d.year; month = d.month; day = x })) (ground arith))
  | inr e ↦ rw (e) (
      month_start_ordinal d.year d.month d.day h.year_pos h.month_pos h.month_le
        (ground (arith, h.day_pos)) later)
]
