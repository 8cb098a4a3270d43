-- ===== src/Calendar/Months.antt =====
-- Adding calendar months (`add_calendar_months` of app/domain/date_utils.py).
use laa_inquests_api.Prelude.{ℕ, ◌+◌, ◌-◌, ◌*◌, ◌/◌, ◌%◌, ◌≤◌, ◌<◌, ◌≡◌, ◌⊎◌, arith}
use laa_inquests_api.Calendar.{Date, days_in_month, add_calendar_months}

-- The dates that `datetime.date` accepts, of any year from 1.
pub record IsDate (d : Date) : Type 0 where
  pub year_pos : 1 ≤ d.year
  pub month_pos : 1 ≤ d.month
  pub month_le : d.month ≤ 12
  pub day_pos : 1 ≤ d.day
  pub day_le : d.day ≤ days_in_month d.year d.month

days_in_month_bounds : (y m : ℕ) → (28 ≤ days_in_month y m) × (days_in_month y m ≤ 31)
unfolding days_in_month
days_in_month_bounds y m = ground arith

-- Adding months to a date gives a date, exactly that many months on, with the day kept when the
-- month has it and cut to the month's last day otherwise.
pub add_calendar_months_lem :
    (d : Date) (n : ℕ)
    → IsDate d
    → let e = add_calendar_months d n in
      IsDate e
      × (e.year * 12 + e.month ≡ d.year * 12 + d.month + n)
      × (((e.day ≡ d.day) × (d.day ≤ days_in_month e.year e.month))
          ⊎ ((e.day ≡ days_in_month e.year e.month) × (days_in_month e.year e.month < d.day)))
unfolding add_calendar_months
add_calendar_months_lem d n h =
    omega
      (arith, days_in_month_bounds (d.year + (d.month - 1 + n) / 12) ((d.month - 1 + n) % 12 + 1))

-- Where the day fits every month, adding months twice is adding their sum.
pub add_calendar_months-add_calendar_months :
    (d : Date) (m n : ℕ)
    → IsDate d
    → d.day ≤ 28
    → add_calendar_months (add_calendar_months d m) n ≡ add_calendar_months d (m + n)
unfolding add_calendar_months
add_calendar_months-add_calendar_months d m n h fits =
    let y₁ : ℕ = d.year + (d.month - 1 + m) / 12 in
    let m₁ : ℕ = (d.month - 1 + m) % 12 + 1 in
    let y₂ : ℕ = y₁ + (m₁ - 1 + n) / 12 in
    let m₂ : ℕ = (m₁ - 1 + n) % 12 + 1 in
    ground (
      arith,
      days_in_month_bounds y₁ m₁,
      days_in_month_bounds y₂ m₂,
      days_in_month_bounds (d.year + (d.month - 1 + (m + n)) / 12)
          ((d.month - 1 + (m + n)) % 12 + 1),
    )
