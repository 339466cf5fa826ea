-- ===== src/Calendar/Fields.antt =====
-- Proofs about `getUTCFullYear` and `getUTCMonth`, as `getCurrentMonthRange` of
-- src/module/budget/budgets.service.ts uses them: the month that they name holds the time.
use native.Mathlib.Nat.{add-zero}
use lexi_ledger_backend.Base.{
  ℕ, zero, suc, ◌+◌, ◌-◌, ◌*◌, ◌/◌, ◌%◌, ◌≤◌, ◌<◌, ◌≡◌, refl, subst, arith, Bool-cases, inl, inr,
  leb,
}
use lexi_ledger_backend.Calendar.{
  ms_per_day, leap_years_before, days_before_year, days_before_month, full_year, first_day,
  utc_month_start, utc_month_last, year_from, month_from, utc_full_year, utc_month,
}
use lexi_ledger_backend.Calendar.Months.{days_before_year-suc, days_before_month_step, month_ends}

next_start : (n k : ℕ) → n + suc k + 1 ≡ n + 1 + k + 1
next_start n k = omega arith

-- The year of a day.
abbrev pub HoldsDay : ℕ → ℕ → Type 0
HoldsDay day y = (days_before_year y ≤ day) × (day < days_before_year (y + 1))

year_from-HoldsDay :
    (fuel y day : ℕ)
    → days_before_year y ≤ day
    → day < days_before_year (y + fuel + 1)
    → HoldsDay day (year_from fuel y day)
unfolding year_from
year_from-HoldsDay zero y day lo hi = (lo, rw add-zero at hi)
year_from-HoldsDay (suc fuel) y day lo hi = elim (Bool-cases (leb (days_before_year (y + 1)) day)) [
  | inl e ↦ rw e (
      year_from-HoldsDay fuel (y + 1) day (ground arith)
        (subst (λ k. day < days_before_year k) (next_start y fuel) hi))
  | inr e ↦ rw e (lo, ground arith)
]

year_in_days : (y : ℕ) → (days_before_year y ≤ 366 * y) × (y ≤ days_before_year y)
unfolding days_before_year leap_years_before
year_in_days y = (omega arith, omega arith)

-- The month of a day of a year.
abbrev pub HoldsDayOfYear : ℕ → ℕ → ℕ → Type 0
HoldsDayOfYear y day m = (days_before_month y m ≤ day) × (day < days_before_month y (m + 1))

month_from-HoldsDayOfYear :
    (fuel y m day : ℕ)
    → days_before_month y m ≤ day
    → day < days_before_month y (m + fuel + 1)
    → HoldsDayOfYear y day (month_from fuel y m day) × (month_from fuel y m day ≤ m + fuel)
unfolding month_from
month_from-HoldsDayOfYear zero y m day lo hi = ((lo, rw add-zero at hi), omega arith)
month_from-HoldsDayOfYear (suc fuel) y m day lo hi =
    elim (Bool-cases (leb (days_before_month y (m + 1)) day)) [
      | inl e ↦
          let (within, bound) =
            month_from-HoldsDayOfYear fuel y (m + 1) day (ground arith)
              (subst (λ k. day < days_before_month y k) (next_start m fuel) hi) in
          rw e (within, omega arith)
      | inr e ↦ rw e ((lo, ground arith), omega arith)
    ]

no_days_before_january : (y : ℕ) → days_before_month y 0 ≡ 0
unfolding days_before_month
no_days_before_january y = refl

-- The day of a time.
abbrev pub day_of : ℕ → ℕ
day_of t = t / ms_per_day

pub utc_full_year-HoldsDay : (t : ℕ) → HoldsDay (day_of t) (utc_full_year t)
unfolding utc_full_year
utc_full_year-HoldsDay t =
    let d = day_of t in
    let (upper, _) = year_in_days (d / 366) in
    let (_, lower) = year_in_days (d / 366 + d + 1) in
    year_from-HoldsDay d (d / 366) d (omega (arith, upper)) (omega (arith, lower))

pub utc_month-HoldsDayOfYear :
    (t : ℕ)
    → let y = utc_full_year t in
      HoldsDayOfYear y (day_of t - days_before_year y) (utc_month t) × (utc_month t ≤ 11)
unfolding utc_month
utc_month-HoldsDayOfYear t =
    let y = utc_full_year t in
    let (lo, hi) = utc_full_year-HoldsDay t in
    month_from-HoldsDayOfYear 11 y 0 (day_of t - days_before_year y)
      (omega (arith, no_days_before_january y)) (omega (arith, lo, hi, days_before_year-suc y))

pub first_day_of_month :
    (y m : ℕ) → m < 12 → first_day y m ≡ days_before_year y + days_before_month y m
unfolding first_day
first_day_of_month y m h =
    let quotient : m / 12 ≡ 0 = omega arith in
    let remainder : m % 12 ≡ m = omega arith in rw (quotient, remainder, add-zero) refl

pub full_year_late : (y : ℕ) → 100 ≤ y → full_year y ≡ y
full_year_late y h = ground arith

fields_hold_time :
    (t y m : ℕ)
    → 100 ≤ y
    → m ≤ 11
    → HoldsDay (day_of t) y
    → HoldsDayOfYear y (day_of t - days_before_year y) m
    → (utc_month_start y m ≤ t) × (t ≤ utc_month_last y (m + 1))
unfolding utc_month_start
fields_hold_time t y m late last (lo, hi) (from, to) =
    let ends = rw (full_year_late y late) at (month_ends y m (omega arith)) in
    let start = first_day_of_month y m (omega arith) in
    let step = days_before_month_step y m in
    rw (full_year_late y late, start) (omega arith, omega (arith, ends))

-- From the year 100 on, the month that the fields of a time name starts no later than the time and
-- ends no earlier.
pub month_holds_time :
    (t : ℕ)
    → 100 ≤ utc_full_year t
    → (utc_month_start (utc_full_year t) (utc_month t) ≤ t)
      × (t ≤ utc_month_last (utc_full_year t) (utc_month t + 1))
month_holds_time t late =
    let (holds, last) = utc_month-HoldsDayOfYear t in
    fields_hold_time t (utc_full_year t) (utc_month t) late last (utc_full_year-HoldsDay t) holds
