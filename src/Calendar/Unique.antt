-- ===== src/Calendar/Unique.antt =====
-- Proofs about `getMonthRange` of src/module/budget/budgets.service.ts: its range holds a time exactly
-- if the fields of the time are the year and the month.
use native.Mathlib.Nat.{add-zero}
use native.Mathlib.Decide.{dec_lt}
use lexi_ledger_backend.Base.{ℕ, zero, suc, ◌+◌, ◌-◌, ◌≤◌, ◌≡◌, arith}
use lexi_ledger_backend.Calendar.{
  days_before_year, days_before_month, utc_month_start, utc_month_last, utc_full_year, utc_month,
}
use lexi_ledger_backend.Calendar.Months.{
  days_before_year-suc, days_before_month_step, first_day-suc, first_day_pos,
}
use lexi_ledger_backend.Calendar.Fields.{
  HoldsDay, HoldsDayOfYear, day_of, utc_full_year-HoldsDay, utc_month-HoldsDayOfYear,
  first_day_of_month, full_year_late, month_holds_time,
}

add_next : (n k : ℕ) → n + suc k ≡ n + k + 1
add_next n k = omega arith

days_before_year_mono : (y k : ℕ) → days_before_year y ≤ days_before_year (y + k)
days_before_year_mono y zero = rw add-zero (omega arith)
days_before_year_mono y (suc k) =
    rw (add_next y k) (omega (arith, days_before_year_mono y k, days_before_year-suc (y + k)))

days_before_month_mono : (y m k : ℕ) → days_before_month y m ≤ days_before_month y (m + k)
days_before_month_mono y m zero = rw add-zero (omega arith)
days_before_month_mono y m (suc k) =
    rw (add_next m k)
      (omega (arith, days_before_month_mono y m k, days_before_month_step y (m + k)))

-- A number that is not after another is that one less a difference.
difference : (a b : ℕ) → a ≤ b → a + (b - a) ≡ b
difference a b h = omega arith

year_not_later : (d y z : ℕ) → HoldsDay d y → HoldsDay d z → y ≤ z
year_not_later d y z (lo, hi) (lo', hi') = elim (dec_lt z y) [
  | no h ↦ omega arith
  | yes h ↦
      let mono =
        rw (difference (z + 1) y (omega arith)) at (days_before_year_mono (z + 1) (y - (z + 1))) in
      absurd (omega (arith, mono))
]

month_not_later : (y e m n : ℕ) → HoldsDayOfYear y e m → HoldsDayOfYear y e n → m ≤ n
month_not_later y e m n (lo, hi) (lo', hi') = elim (dec_lt n m) [
  | no h ↦ omega arith
  | yes h ↦
      let mono =
        rw (difference (n + 1) m (omega arith)) at
          (days_before_month_mono y (n + 1) (m - (n + 1))) in
      absurd (omega (arith, mono))
]

-- The days of a month lie in its year, and in the month.
range-HoldsDay :
    (t y m : ℕ)
    → 100 ≤ y
    → m ≤ 11
    → utc_month_start y m ≤ t
    → t ≤ utc_month_last y (m + 1)
    → HoldsDay (day_of t) y × HoldsDayOfYear y (day_of t - days_before_year y) m
unfolding utc_month_start utc_month_last
range-HoldsDay t y m late last from to =
    let start = first_day_of_month y m (omega arith) in
    let next = first_day-suc y m (omega arith) in
    let step = days_before_month_step y m in
    let some_day = first_day_pos y (m + 1) late in
    let year = days_before_year-suc y in
    let whole =
      rw (difference (m + 1) 12 (omega arith)) at
        (days_before_month_mono y (m + 1) (12 - (m + 1))) in
    let from' = rw (full_year_late y late) at from in
    let to' = rw (full_year_late y late) at to in
    (
      (omega (arith, start, from'), omega (arith, start, next, step, some_day, year, whole, to')),
      (omega (arith, start, from'), omega (arith, start, next, step, some_day, to')),
    )

-- A time in the range of a month has its year and its month.
pub fields_of_range :
    (t y m : ℕ)
    → 100 ≤ y
    → m ≤ 11
    → utc_month_start y m ≤ t
    → t ≤ utc_month_last y (m + 1)
    → (utc_full_year t ≡ y) × (utc_month t ≡ m)
fields_of_range t y m late last from to =
    let (in_year, in_month) = range-HoldsDay t y m late last from to in
    let (month, _) = utc_month-HoldsDayOfYear t in
    let same : utc_full_year t ≡ y = omega (
      arith,
      year_not_later (day_of t) (utc_full_year t) y (utc_full_year-HoldsDay t) in_year,
      year_not_later (day_of t) y (utc_full_year t) in_year (utc_full_year-HoldsDay t),
    ) in
    let month' = rw same at month in
    (
      same,
      omega (
        arith,
        month_not_later y (day_of t - days_before_year y) (utc_month t) m month' in_month,
        month_not_later y (day_of t - days_before_year y) m (utc_month t) in_month month',
      ),
    )

-- A time with the year and the month of a range lies in it.
pub range_of_fields :
    (t y m : ℕ)
    → 100 ≤ y
    → utc_full_year t ≡ y
    → utc_month t ≡ m
    → (utc_month_start y m ≤ t) × (t ≤ utc_month_last y (m + 1))
range_of_fields t y m late year month =
    let (from, to) = month_holds_time t (rw year late) in
    (rw (← year, ← month) from, rw (← year, ← month) to)
