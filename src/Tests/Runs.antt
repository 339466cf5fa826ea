-- ===== src/Tests/Runs.antt =====
-- Examples for the runs of a job and for the current month.
use lexi_ledger_backend.Base.{ℕ, ◌+◌, ◌≡◌, ◌≤◌, refl, none, some, arith}
use lexi_ledger_backend.Platform.{ok, Env}
use lexi_ledger_backend.Platform.Memory.{memory, empty}
use lexi_ledger_backend.Calendar.{utc_full_year}
use lexi_ledger_backend.Budgets.{chosen_range, month_text, year_and_month}
use lexi_ledger_backend.Budgets.MonthText.{month_text_roundtrip}
use lexi_ledger_backend.Budgets.Today.{current_month_holds_now}
use lexi_ledger_backend.Statements.Processor.Runs.{IsSettled, counted, run_settles}
use lexi_ledger_backend.Tests.Processed.{waiting, first_try}

run_settles_example :
    IsSettled memory 3 waiting.transactions ((counted memory).run first_try waiting)
run_settles_example = run_settles memory (counted memory) first_try waiting refl

-- The same services on the 19th of November of 2026, by the clock.
abbrev november : Env
november = record memory { clock = λ k. 63962323200000 + k }

late : 100 ≤ utc_full_year (november.clock empty.reads)
unfolding utc_full_year
late = omega arith

current_month_holds_now_example :
    (from to : ℕ) × ((chosen_range november none empty).0
      ≡ ok (record { start = some from; end = some to }))
    × (from ≤ november.clock 0)
    × (november.clock 0 ≤ to)
current_month_holds_now_example = current_month_holds_now november empty late

month_text_roundtrip_example : year_and_month (month_text 2026 10) ≡ some (2026, 11)
month_text_roundtrip_example = month_text_roundtrip 2026 10
