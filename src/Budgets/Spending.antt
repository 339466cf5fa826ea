-- ===== src/Budgets/Spending.antt =====
-- Proofs about `findAll` of src/module/budget/budgets.service.ts.
use mathlib.Core.List.{Perm}
use native.Mathlib.Numerals.{add-one}
use lexi_ledger_backend.Base.{
  ℕ, suc, ◌+◌, ◌≤◌, Bool, ◌&&◌, ◌≡◌, ◌∙◌, refl, ap, some, List, [], ◌∷◌, map, ◌==◌, ==_refl, filter,
  filter_same, All, arith, Bool-cases, inl, inr,
}
use lexi_ledger_backend.Base.Int.{pos, ◌-ℤ◌}
use lexi_ledger_backend.Schema.{Budget, Transaction, TransactionCategory}
use lexi_ledger_backend.Platform.{World, ok, Env, total}
use lexi_ledger_backend.Calendar.{utc_full_year, utc_month, utc_month_start_before}
use lexi_ledger_backend.Calendar.Unique.{fields_of_range, range_of_fields}
use lexi_ledger_backend.Transactions.{
  Overview, overview_where, overview_of, get_overview, date_range_where, category_eq,
}
use lexi_ledger_backend.Transactions.Totals.{of_category, amount_of, category_total-overview}
use lexi_ledger_backend.Budgets.{
  BudgetReport, month_range, month_text, report, find_all, find_all_for_user, chosen_range,
  get_month_range,
}
use lexi_ledger_backend.Budgets.MonthText.{month_text_roundtrip, month_text_not_empty}

-- A date lies in a month, counted from 0, of a year, by the fields of the date.
abbrev pub is_in_month : (year month : ℕ) → Transaction → Bool
is_in_month year month t = utc_full_year t.date == year && utc_month t.date == month

-- The rows that count against a budget: the user's, in the month, of its category.
abbrev pub spent_rows : (user_id year month : ℕ) → TransactionCategory → World → List Transaction
spent_rows user_id year month category w =
    filter
      (λ t. (t.user_id == user_id && is_in_month year month t) && category_eq t.category category)
      w.transactions

-- The report of a budget is right about a world.
abbrev pub IsAccurate : (user_id year month : ℕ) → World → BudgetReport → Type 0
IsAccurate user_id year month w r =
    (r.spent ≡ total amount_of (spent_rows user_id year month r.budget.category w))
    × (r.remaining
        ≡ pos r.budget.monthly_limit
          -ℤ total amount_of (spent_rows user_id year month r.budget.category w))

-- The range of a month holds exactly the dates in it.
month_range-is_in_month :
    (year month : ℕ) (t : Transaction)
    → 100 ≤ year
    → month ≤ 11
    → date_range_where (month_range (year, month + 1)) t ≡ is_in_month year month t
unfolding month_range utc_month_start_before
month_range-is_in_month year month t late last =
    rw add-one (elim (Bool-cases (is_in_month year month t)) [
      | inl e ↦
          let (from, to) = range_of_fields t.date year month late (ground arith) (ground arith) in
          ground arith
      | inr e ↦ elim (Bool-cases (date_range_where (month_range (year, suc month)) t)) [
        | inl within ↦
            let (same_year, same_month) =
              fields_of_range t.date year month late last (ground arith) (ground arith) in
            absurd (ground (arith, ==_refl year, ==_refl month))
        | inr outside ↦ ground arith
      ]
    ])

spent_rows_lem :
    (user_id year month : ℕ) (category : TransactionCategory) (w : World)
    → 100 ≤ year
    → month ≤ 11
    → filter
        (of_category category (overview_where user_id (month_range (year, month + 1))))
        w.transactions
      ≡ spent_rows user_id year month category w
spent_rows_lem user_id year month category w late last =
    filter_same _ _ w.transactions (λ t. rw (month_range-is_in_month year month t late last) refl)

module _ (env : Env) where
  reports-IsAccurate :
      (user_id year month : ℕ) (w : World) (budgets : List Budget)
      → 100 ≤ year
      → month ≤ 11
      → All
          (IsAccurate user_id year month w)
          (map (report env (overview_of env user_id (month_range (year, month + 1)) w)) budgets)
  reports-IsAccurate user_id year month w [] late last = tt
  reports-IsAccurate user_id year month w (b ∷ budgets) late last =
      let spent =
        category_total-overview env user_id (month_range (year, month + 1)) b.category w
        ∙ ap (total amount_of) (spent_rows_lem user_id year month b.category w late last) in
      (
        (spent, ap (λ s. pos b.monthly_limit -ℤ s) spent),
        reports-IsAccurate user_id year month w budgets late last,
      )

  reported_budgets :
      (o : Overview) (budgets : List Budget)
      → map (λ r. r.budget) (map (report env o) budgets) ≡ budgets
  reported_budgets o [] = refl
  reported_budgets o (b ∷ budgets) = ap (λ bs. b ∷ bs) (reported_budgets o budgets)

  -- Asked for a month of a year from 1000 to 9999, as the text `YYYY-MM`, the service reports each
  -- budget of the user once, with what the amounts of the user's transactions of that category
  -- add up to whose date has that year and that month, and what is left of the limit; nothing is
  -- changed. The month counts from 0.
  pub find_all-IsAccurate :
      (user_id year month : ℕ) (w : World)
      → 1000 ≤ year
      → year ≤ 9999
      → month ≤ 11
      → (reports : List BudgetReport) × (find_all env user_id (some (month_text year month)) w
          ≡ (ok reports, w))
        × All (IsAccurate user_id year month w) reports
        × Perm (map (λ r. r.budget) reports) (filter (λ b. b.user_id == user_id) w.budgets)
  unfolding find_all find_all_for_user get_overview chosen_range get_month_range
  find_all-IsAccurate user_id year month w late early last =
      let range = month_range (year, month + 1) in
      let found = env.db.find_many (λ b. b.user_id == user_id) w.budgets in
      (
        map (report env (overview_of env user_id range w)) found,
        rw (month_text_not_empty year month, month_text_roundtrip year month) refl,
        reports-IsAccurate user_id year month w found (omega arith) last,
        rw (reported_budgets (overview_of env user_id range w) found)
            (env.db.find_many_law (λ b. b.user_id == user_id) w.budgets),
      )
