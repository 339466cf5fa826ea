-- ===== src/Calendar/Months.antt =====
-- Proofs about the days of a year and of a month, as `getMonthRange` of
-- src/module/budget/budgets.service.ts reads them.
use native.Mathlib.Numerals.{add-one}
use native.Mathlib.Nat.{add-zero}
use native.Mathlib.Decide.{dec_lt}
use lexi_ledger_backend.Base.{
  ℕ, ◌+◌, ◌*◌, ◌/◌, ◌%◌, ◌≤◌, ◌<◌, ◌≡◌, refl, subst, sym, arith, if◌then◌else◌,
}
use lexi_ledger_backend.Calendar.{
  ms_per_day, leap_years_before, days_before_year, is_leap, days_in_month, days_before_month,
  full_year, first_day, utc_month_start, utc_month_last,
}

-- One more leap year is counted exactly after a leap year.
leap_years_before-suc :
    (y : ℕ) → leap_years_before (y + 1) ≡ leap_years_before y + (if is_leap y then 1 else 0)
unfolding leap_years_before
leap_years_before-suc y = ground arith

-- The twelve months make up the year.
pub days_before_year-suc :
    (y : ℕ) → days_before_year (y + 1) ≡ days_before_year y + days_before_month y 12
unfolding days_before_year days_before_month
days_before_year-suc y = ground (arith, leap_years_before-suc y)

pub days_before_month_step :
    (y m : ℕ) → days_before_month y (m + 1) ≡ days_before_month y m + days_in_month y m
unfolding days_before_month
days_before_month_step y m = rw add-one refl

-- December ends with the year.
first_day_december : (y : ℕ) → first_day y 12 ≡ first_day y 11 + 31
unfolding first_day days_before_month
first_day_december y = ground (arith, days_before_year-suc y, add-zero y)

first_day_inner : (y m : ℕ) → m < 11 → first_day y (m + 1) ≡ first_day y m + days_in_month y m
unfolding first_day
first_day_inner y m h =
    let quotient : (m + 1) / 12 ≡ 0 = omega arith in
    let remainder : (m + 1) % 12 ≡ m + 1 = omega arith in
    let quotient' : m / 12 ≡ 0 = omega arith in
    let remainder' : m % 12 ≡ m = omega arith in
    rw (quotient, remainder, quotient', remainder', days_before_month_step, add-zero) (omega arith)

-- A month, by its index below 12, ends where the next begins.
pub first_day-suc : (y m : ℕ) → m < 12 → first_day y (m + 1) ≡ first_day y m + days_in_month y m
first_day-suc y m h = elim (dec_lt m 11) [
  | yes inner ↦ first_day_inner y m inner
  | no last ↦
      let december : m ≡ 11 = omega arith in
      subst (λ k. first_day y (k + 1) ≡ first_day y k + days_in_month y k) (sym december)
        (first_day_december y)
]

pub first_day_pos : (y m : ℕ) → 100 ≤ y → 0 < first_day y m
unfolding first_day days_before_year
first_day_pos y m h = omega arith

-- The two ends of a month, as `getMonthRange` computes them, hold exactly its days.
pub month_ends :
    (y m : ℕ)
    → m < 12
    → utc_month_last y (m + 1) + 1
      ≡ utc_month_start y m + days_in_month (full_year y) m * ms_per_day
unfolding utc_month_start utc_month_last
month_ends y m h =
    let big : 100 ≤ full_year y = ground arith in
    omega (arith, first_day-suc (full_year y) m h, first_day_pos (full_year y) (m + 1) big)
