-- ===== src/Calendar/Order.antt =====
-- The order of dates and of their ordinals.
use laa_inquests_api.Prelude.{
  ℕ, zero, suc, ◌+◌, ◌-◌, ◌*◌, ◌/◌, ◌≤◌, ◌<◌, ◌≡◌, ap, sym, ==_iff, ◌==◌, true, false, ◌↔◌, ◌⊎◌,
  arith, Bool-cases, inl, inr, if◌then◌else◌,
}
use laa_inquests_api.Calendar.{Date, days_in_month, days_before_month, to_ordinal, before, is_leap}
use laa_inquests_api.Calendar.Months.{IsDate}
use laa_inquests_api.Calendar.Days.{days_before_next_month, days_of_year, days_in_december}

-- The days before the first of January.
abbrev days_before_year : ℕ → ℕ
days_before_year y = (y - 1) * 365 + (y - 1) / 4 - (y - 1) / 100 + (y - 1) / 400

step_from :
    (y n : ℕ)
    → 1 ≤ n
    → suc n ≤ 12
    → days_before_month y (suc n) ≡ days_before_month y n + days_in_month y n
step_from y n h b =
    let plus_one : suc n ≡ n + 1 = omega arith in
    rw (plus_one) (days_before_next_month y n h (omega arith))

days_before_month_mono :
    (y m n : ℕ)
    → 1 ≤ m
    → m < n
    → n ≤ 12
    → days_before_month y m + days_in_month y m ≤ days_before_month y n
days_before_month_mono y m zero h k b = absurd (omega arith)
days_before_month_mono y m (suc n) h k b = elim (Bool-cases (m == n)) [
  | inl e ↦
      let same : m ≡ n = (==_iff m n).0 e in
      omega (
        arith,
        step_from y n (rw (sym same) h) b,
        ap (days_before_month y) same,
        ap (days_in_month y) same,
      )
  | inr e ↦
      let below : m < n = ground arith in
      omega
        (arith, days_before_month_mono y m n h below (omega arith), step_from y n (omega arith) b)
]

days_before_year_mono :
    (y z : ℕ)
    → 1 ≤ y
    → y < z
    → days_before_year y + (if is_leap y then 366 else 365) ≤ days_before_year z
unfolding is_leap
days_before_year_mono y z h k = ground arith

days_within_year :
    (d : Date)
    → IsDate d
    → days_before_month d.year d.month + d.day ≤ (if is_leap d.year then 366 else 365)
days_within_year d h = elim (Bool-cases (d.month == 12)) [
  | inl e ↦
      let december : d.month ≡ 12 = (==_iff d.month 12).0 e in
      omega (
        arith,
        days_of_year d.year,
        ap (days_before_month d.year) december,
        ap (days_in_month d.year) december,
        days_in_december d.year,
      )
  | inr e ↦
      let earlier : d.month < 12 = ground arith in
      omega (
        arith,
        days_before_month_mono d.year d.month 12 h.month_pos earlier (omega arith),
        days_of_year d.year,
      )
]

-- The ways for a date to be before another.
abbrev Precedes : Date → Date → Type 0
Precedes a b =
    (a.year < b.year)
    ⊎ (((a.year ≡ b.year) × (a.month < b.month))
        ⊎ ((a.year ≡ b.year) × (a.month ≡ b.month) × (a.day < b.day)))

before_iff : (a b : Date) → (before a b ≡ true) ↔ Precedes a b
unfolding before
before_iff a b = ground arith

not_before : (a b : Date) → before a b ≡ false → Precedes b a ⊎ (a ≡ b)
unfolding before
not_before a b e = ground arith

Precedes-ordinal : (a b : Date) → IsDate a → IsDate b → Precedes a b → to_ordinal a < to_ordinal b
unfolding to_ordinal
Precedes-ordinal a b ha hb (inl y) =
    omega
      (arith, days_within_year a ha, days_before_year_mono a.year b.year ha.year_pos y, hb.day_pos)
Precedes-ordinal a b ha hb (inr (inl (y, m))) = omega (
  arith,
  ap days_before_year y,
  ap (λ y. days_before_month y b.month) y,
  days_before_month_mono a.year a.month b.month ha.month_pos m hb.month_le,
  ha.day_le,
  hb.day_pos,
)
Precedes-ordinal a b ha hb (inr (inr (y, m, d))) = omega (
  arith,
  ap days_before_year y,
  ap (λ y. days_before_month y b.month) y,
  ap (days_before_month a.year) m,
)

-- A date is before another exactly when its ordinal is smaller.
pub before-to_ordinal :
    (a b : Date) → IsDate a → IsDate b → (before a b ≡ true) ↔ (to_ordinal a < to_ordinal b)
before-to_ordinal a b ha hb = (
  λ e. Precedes-ordinal a b ha hb ((before_iff a b).0 e),
  λ l. elim (Bool-cases (before a b)) [
    | inl e ↦ e
    | inr e ↦ elim (not_before a b e) [
      | inl p ↦ absurd (omega (arith, Precedes-ordinal b a hb ha p))
      | inr p ↦ absurd (omega (arith, ap to_ordinal p))
    ]
  ],
)
