-- ===== src/Budgets/Today.antt =====
-- Proofs about `getCurrentMonthRange` of src/module/budget/budgets.service.ts.
use native.Mathlib.Numerals.{add-one}
use lexi_ledger_backend.Base.{ℕ, ◌+◌, ◌≤◌, ◌≡◌, refl, none, some}
use lexi_ledger_backend.Platform.{World, ok, Env}
use lexi_ledger_backend.Calendar.{
  utc_full_year, utc_month, utc_month_start, utc_month_last, utc_month_start_before,
}
use lexi_ledger_backend.Calendar.Fields.{month_holds_time}
use lexi_ledger_backend.Budgets.MonthText.{month_text_roundtrip}
use lexi_ledger_backend.Budgets.{
  chosen_range, get_current_month_range, get_month_range, month_range,
}

module _ (env : Env) where
  -- Without a month, the range is one that the time of the request lies in, if its year is not
  -- below 100.
  pub current_month_holds_now :
      (w : World)
      → let t = env.clock w.reads in
        100 ≤ utc_full_year t
        → (from to : ℕ) × ((chosen_range env none w).0
            ≡ ok (record { start = some from; end = some to }))
          × (from ≤ t)
          × (t ≤ to)
  unfolding chosen_range get_current_month_range get_month_range month_range utc_month_start_before
  current_month_holds_now w late =
      let t = env.clock w.reads in
      let (from_le, le_to) = month_holds_time t late in
      (
        utc_month_start (utc_full_year t) (utc_month t),
        utc_month_last (utc_full_year t) (utc_month t + 1),
        rw (month_text_roundtrip (utc_full_year t) (utc_month t), add-one) refl,
        from_le,
        le_to,
      )
