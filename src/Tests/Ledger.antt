-- ===== src/Tests/Ledger.antt =====
-- Examples for the transactions and the budgets: a user with an income and two expenses.
use mathlib.Core.List.{Perm}
use mathlib.Core.Option
use lexi_ledger_backend.Base.{
  ℕ, true, ◌≡◌, refl, none, some, List, [], ◌∷◌, ◌++◌, arith, not, filter, map, All, if◌then◌else◌,
  ◌==◌,
}
use lexi_ledger_backend.Base.Int.{pos}
use lexi_ledger_backend.Schema.{
  Transaction, TransactionType, debit, credit, TransactionCategory, food, transport, income, Budget,
}
use lexi_ledger_backend.Platform.{World, ok, err, prisma, invalid_argument, total}
use lexi_ledger_backend.Base.Text.{to_string, length}
use lexi_ledger_backend.Calendar.{utc_full_year, utc_month}
use lexi_ledger_backend.Schema.{Role}
use lexi_ledger_backend.Api.Guard.{CurrentUserPayload}
use lexi_ledger_backend.Api.Controllers
use lexi_ledger_backend.Api.Ranges.{IsAnswered, dated_overview-IsAnswered}
use lexi_ledger_backend.Platform.Memory.{memory, empty}
use lexi_ledger_backend.Transactions.{
  DateRange, overview_where, overview_of, category_total_of, correct, get_overview, is_of_user,
  category_eq,
}
use lexi_ledger_backend.Transactions.Totals.{
  of_category, amount_of, AreTotals, category_total-overview, get_overview-AreTotals,
}
use lexi_ledger_backend.Transactions.Correction
use lexi_ledger_backend.Transactions.Correction.{
  recorded, with_category, trail, Leads, correct_records, correct-Leads, correct_missing,
}
use lexi_ledger_backend.Budgets.{BudgetReport, month_text, find_all, set}
use lexi_ledger_backend.Budgets.Spending.{is_in_month, IsAccurate, find_all-IsAccurate}
use lexi_ledger_backend.Budgets.Limits
use lexi_ledger_backend.Budgets.Limits.{HasOneEach, Removed, set_once, remove-Removed}
use lexi_ledger_backend.Transactions.{Page, listing_where}
use lexi_ledger_backend.Transactions.Pages.{page, first_pages, pages_cover}
use lexi_ledger_backend.Platform.{IsSorted}

abbrev row : ℕ → TransactionType → TransactionCategory → ℕ → Transaction
row id type category amount = record {
  id = id;
  user_id = 7;
  statement_id = 3;
  date = 500;
  description = "";
  amount = pos amount;
  type = type;
  category = category;
  confidence = 1;
}

abbrev meal : Transaction
meal = row 2 debit food 400

abbrev food_budget : Budget
food_budget = record { id = 9; user_id = 7; category = food; monthly_limit = 1000 }

abbrev month_of_ada : World
month_of_ada = record empty {
  transactions = row 1 credit income 5000 ∷ meal ∷ row 4 debit transport 250 ∷ [];
  budgets = food_budget ∷ [];
}

abbrev all_time : DateRange
all_time = record { start = none; end = none }

category_total-overview_example :
    category_total_of (overview_of memory 7 all_time month_of_ada) food
    ≡ total amount_of
        (filter (of_category food (overview_where 7 all_time)) month_of_ada.transactions)
category_total-overview_example = category_total-overview memory 7 all_time food month_of_ada

get_overview-AreTotals_example :
    let o = overview_of memory 7 all_time month_of_ada in
    (get_overview memory 7 all_time month_of_ada ≡ (ok o, month_of_ada))
    × AreTotals memory (overview_where 7 all_time) month_of_ada (record {
      total_transactions = o.total_transactions;
      total_credit = o.total_credit;
      total_debit = o.total_debit;
      net = o.net;
    })
get_overview-AreTotals_example = get_overview-AreTotals memory 7 all_time month_of_ada

-- The user of the examples, and an overview of a span of time.
abbrev ada : CurrentUserPayload
ada = record { user_id = 7; role = Role.user }

dated_overview-IsAnswered_example :
    IsAnswered memory 7
      (some 500)
      (some 500)
      month_of_ada
      (Controllers.get_overview memory ada (some "2025-08-01") (some "2025-08-31") month_of_ada)
dated_overview-IsAnswered_example =
    dated_overview-IsAnswered memory ada "2025-08-01" "2025-08-31" month_of_ada refl refl

-- A text that names no date of JavaScript.
invalid_date_refused :
    Controllers.get_overview memory ada (some "20250801") (some "2025-08-31") month_of_ada
    ≡ (err (prisma invalid_argument), month_of_ada)
invalid_date_refused =
    dated_overview-IsAnswered memory ada "20250801" "2025-08-31" month_of_ada refl refl

correct_records_example :
    let (result, w') = correct memory 7 2 transport month_of_ada in
    (result ≡ ok (with_category memory transport meal))
    × (Correction.stored 2 7 w' ≡ some (with_category memory transport meal))
    × (filter (λ x. not (is_of_user 2 7 x)) w'.transactions
        ≡ filter (λ x. not (is_of_user 2 7 x)) month_of_ada.transactions)
    × (w'.corrections
        ≡ []
          ++ (if category_eq food transport
              then []
              else recorded memory 7 2 food transport month_of_ada ∷ []))
correct_records_example = correct_records memory 7 2 transport month_of_ada refl

correct-Leads_example :
    Leads food (trail 2 7 (correct memory 7 2 transport month_of_ada).1) transport
correct-Leads_example = correct-Leads memory 7 2 food transport month_of_ada refl refl

-- A meal of the 15th of August of 2025.
abbrev august_of_ada : World
august_of_ada = record month_of_ada { transactions = record meal { date = 63922435201000 } ∷ [] }

find_all-IsAccurate_example :
    (reports : List BudgetReport) × (find_all memory 7 (some (month_text 2025 7)) august_of_ada
      ≡ (ok reports, august_of_ada))
    × All (IsAccurate 7 2025 7 august_of_ada) reports
    × Perm (map (λ r. r.budget) reports) (filter (λ b. b.user_id == 7) august_of_ada.budgets)
find_all-IsAccurate_example =
    find_all-IsAccurate memory 7 2025 7 august_of_ada (omega arith) (omega arith) (omega arith)

written_as : month_text 2025 7 ≡ "2025-08"
unfolding month_text to_string length
written_as = refl

-- It counts against the budget of the month.
meal_counts : is_in_month 2025 7 (record meal { date = 63922435201000 }) ≡ true
unfolding utc_full_year utc_month
meal_counts = refl

one_food_budget : HasOneEach month_of_ada.budgets
one_food_budget user_id category = ground arith

set_once_example :
    let w' = (set memory 7 food 2000 month_of_ada).1 in
    HasOneEach w'.budgets
    × (Option.map (λ b. b.monthly_limit) (Limits.stored memory 7 food w') ≡ some 2000)
set_once_example = set_once memory 7 food 2000 month_of_ada refl one_food_budget

pages_cover_example :
    (p : Page Transaction) × (page memory 7 2 none all_time 1 month_of_ada ≡ ok p)
    × Perm
        (first_pages memory 7 2 none all_time p.total_pages month_of_ada)
        (filter (listing_where 7 none all_time) month_of_ada.transactions)
    × IsSorted
        (λ t. t.date)
        (λ t. t.id)
        (first_pages memory 7 2 none all_time p.total_pages month_of_ada)
pages_cover_example = pages_cover memory 7 2 none all_time month_of_ada (omega arith)
