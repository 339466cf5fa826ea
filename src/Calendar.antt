-- ===== src/Calendar.antt =====
-- `Date.UTC` and the fields of a `Date`, over days of the proleptic Gregorian calendar. Times count
-- milliseconds from 0000-01-01, so that no date of the program is negative.
pub mod Months
pub mod Fields
pub mod Unique
use lexi_ledger_backend.Base.{
  ℕ, zero, suc, ◌+◌, ◌-◌, ◌*◌, ◌/◌, ◌%◌, Bool, true, false, ◌==◌, ltb, leb, not, ◌&&◌, ◌||◌,
  if◌then◌else◌,
}

abbrev pub ms_per_day : ℕ
ms_per_day = 86400000

-- The leap years before a year, and the days before its first.
unfoldable pub leap_years_before : ℕ → ℕ
leap_years_before y = (y + 3) / 4 + (y + 399) / 400 - (y + 99) / 100

unfoldable pub days_before_year : ℕ → ℕ
unfolding leap_years_before
days_before_year y = 365 * y + leap_years_before y

abbrev pub is_leap : ℕ → Bool
is_leap y = (y % 4 == 0) && (not (y % 100 == 0) || (y % 400 == 0))

-- The days of a month, by its index from 0 in a year.
abbrev pub days_in_month : ℕ → ℕ → ℕ
days_in_month y m =
    if m == 1
    then if is_leap y then 29 else 28
    else if m == 3 || (m == 5 || (m == 8 || m == 10))
    then 30
    else 31

-- The days of the year before a month.
unfoldable pub days_before_month : ℕ → ℕ → ℕ
days_before_month y zero = 0
days_before_month y (suc m) = days_before_month y m + days_in_month y m

-- `Date.UTC` reads a year below 100 as one of the twentieth century.
abbrev pub full_year : ℕ → ℕ
full_year y = if ltb y 100 then 1900 + y else y

-- The first day of a month, whose index may pass the end of the year.
unfoldable pub first_day : ℕ → ℕ → ℕ
first_day y m = days_before_year (y + m / 12) + days_before_month (y + m / 12) (m % 12)

-- `Date.UTC(year, m, 1)`, and `Date.UTC(year, m, 0, 23, 59, 59, 999)`, the last millisecond of the
-- month before.
unfoldable pub utc_month_start : ℕ → ℕ → ℕ
utc_month_start y m = first_day (full_year y) m * ms_per_day

unfoldable pub utc_month_last : ℕ → ℕ → ℕ
utc_month_last y m = (first_day (full_year y) m - 1) * ms_per_day + 86399999

-- `Date.UTC(year, m - 1, 1)` for a month from 1; month 0 is the December of the year before.
unfoldable pub utc_month_start_before : ℕ → ℕ → ℕ
utc_month_start_before y zero = first_day (full_year y - 1) 11 * ms_per_day
utc_month_start_before y (suc m) = utc_month_start y m

-- The year of a day, from a year that is not after it, by at most `fuel` steps.
year_from : ℕ → ℕ → ℕ → ℕ
year_from zero y day = y
year_from (suc fuel) y day =
    let later = year_from fuel (y + 1) day in
    if leb (days_before_year (y + 1)) day then later else y

-- The month of a day of the year, from a month that is not after it.
month_from : ℕ → ℕ → ℕ → ℕ → ℕ
month_from zero y m day = m
month_from (suc fuel) y m day =
    let later = month_from fuel y (m + 1) day in
    if leb (days_before_month y (m + 1)) day then later else m

-- `getUTCFullYear` and `getUTCMonth`. No year has more than 366 days, so the search starts before
-- the year, and it ends within as many steps as there are days.
unfoldable pub utc_full_year : ℕ → ℕ
unfolding year_from days_before_year
utc_full_year t = year_from (t / ms_per_day) (t / ms_per_day / 366) (t / ms_per_day)

unfoldable pub utc_month : ℕ → ℕ
unfolding month_from days_before_month utc_full_year
utc_month t =
    month_from 11 (utc_full_year t) 0 (t / ms_per_day - days_before_year (utc_full_year t))
