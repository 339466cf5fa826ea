-- ===== src/Transactions/Totals.antt =====
-- Proofs about the totals of src/module/transactions, as `groupBy` answers them, against plain sums
-- over the rows.
use mathlib.Core.Option
use lexi_ledger_backend.Base.{
  ℕ, ◌+◌, ◌≡◌, refl, ◌∙◌, ap, ap₂, Bool, true, List, [], ◌∷◌, arith, ◌&&◌, filter, find?,
  find?-map_to, length,
}
use lexi_ledger_backend.Base.Int.{ℤ, pos, ◌-ℤ◌, int_laws}
use lexi_ledger_backend.Schema.{Transaction, TransactionType, debit, credit, TransactionCategory}
use lexi_ledger_backend.Platform.{World, ok, Env, group_of, total}
use lexi_ledger_backend.Transactions.{
  type_eq, category_eq, sum_or_zero, count_or_zero, by_type, by_category, stats_of, total_or_zero,
  category_total, category_total_of, stats_where, overview_where, get_stats, overview_of,
  get_overview, DateRange, Stats,
}

type_eq→≡ : (a b : TransactionType) → type_eq a b ≡ true → a ≡ b
type_eq→≡ debit debit h = refl
type_eq→≡ credit credit h = refl
type_eq→≡ debit credit h = cc
type_eq→≡ credit debit h = cc

type_eq_refl : (a : TransactionType) → type_eq a a ≡ true
type_eq_refl debit = refl
type_eq_refl credit = refl

pub category_eq→≡ : (a b : TransactionCategory) → category_eq a b ≡ true → a ≡ b
category_eq→≡ a b h = ground arith

pub category_eq_refl : (a : TransactionCategory) → category_eq a a ≡ true
category_eq_refl a = ground arith

-- The rows of one type among those that fit a condition, and the sum of what comes in less what
-- goes out.
abbrev pub of_type : TransactionType → (Transaction → Bool) → Transaction → Bool
of_type type p t = p t && type_eq t.type type

abbrev pub signed_amount : Transaction → ℤ
signed_amount t = elim t.type [ debit ↦ pos 0 -ℤ t.amount | credit ↦ t.amount ]

abbrev pub amount_of : Transaction → ℤ
amount_of t = t.amount

sum_of_group :
    {K Row : Type 0} (amount : Row → ℤ) (k : K) (rows : List Row)
    → sum_or_zero (group_of amount k rows) ≡ total amount rows
unfolding total
sum_of_group amount k [] = refl
sum_of_group amount k (r ∷ rows) = refl

count_of_group :
    {K Row : Type 0} (amount : Row → ℤ) (k : K) (rows : List Row)
    → count_or_zero (group_of amount k rows) ≡ length rows
count_of_group amount k [] = refl
count_of_group amount k (r ∷ rows) = refl

-- Every row is of one type or the other.
count_by_type :
    (p : Transaction → Bool) (rows : List Transaction)
    → length (filter (of_type credit p) rows) + length (filter (of_type debit p) rows)
      ≡ length (filter p rows)
count_by_type p [] = omega arith
count_by_type p (t ∷ rows) = ground (arith, count_by_type p rows)

net_by_type :
    (p : Transaction → Bool) (rows : List Transaction)
    → total amount_of (filter (of_type credit p) rows)
        -ℤ total amount_of (filter (of_type debit p) rows)
      ≡ total signed_amount (filter p rows)
unfolding total
net_by_type p [] = omega int_laws
net_by_type p (t ∷ rows) = grind (int_laws, net_by_type p rows)

-- The rows of one category among those that fit a condition.
abbrev pub of_category : TransactionCategory → (Transaction → Bool) → Transaction → Bool
of_category category p t = p t && category_eq t.category category

module _ (env : Env) where
  group_found :
      (p : Transaction → Bool) (k : TransactionType) (w : World)
      → find? (λ g. type_eq g.key k) (by_type env p w)
        ≡ group_of amount_of k (filter (of_type k p) w.transactions)
  group_found p k w =
      env.db.group_by_law type_eq (λ t. t.type) (λ t. t.amount) p w.transactions k type_eq→≡
        type_eq_refl

  -- What the totals of a condition are, over the rows that fit it.
  pub record AreTotals (p : Transaction → Bool) (w : World) (s : Stats) : Type 0 where
    pub counted : s.total_transactions ≡ length (filter p w.transactions)
    pub credited : s.total_credit ≡ total amount_of (filter (of_type credit p) w.transactions)
    pub debited : s.total_debit ≡ total amount_of (filter (of_type debit p) w.transactions)
    pub netted : s.net ≡ total signed_amount (filter p w.transactions)

  stats_of-AreTotals :
      (p : Transaction → Bool) (w : World) → AreTotals p w (stats_of (by_type env p w))
  stats_of-AreTotals p w =
      let credits = filter (of_type credit p) w.transactions in
      let debits = filter (of_type debit p) w.transactions in
      record {
        counted =
            ap₂ (λ a b. count_or_zero a + count_or_zero b) (group_found p credit w)
              (group_found p debit w)
            ∙ ap₂ (λ a b. a + b) (count_of_group amount_of credit credits)
                (count_of_group amount_of debit debits)
            ∙ count_by_type p w.transactions;
        credited = ap sum_or_zero (group_found p credit w) ∙ sum_of_group amount_of credit credits;
        debited = ap sum_or_zero (group_found p debit w) ∙ sum_of_group amount_of debit debits;
        netted =
            ap₂ (λ a b. sum_or_zero a -ℤ sum_or_zero b) (group_found p credit w)
              (group_found p debit w)
            ∙ ap₂ (λ a b. a -ℤ b) (sum_of_group amount_of credit credits)
                (sum_of_group amount_of debit debits)
            ∙ net_by_type p w.transactions;
      }

  -- The statistics of a statement count each of its rows that belong to the user once, sum the
  -- credits and the debits apart, and their net is the sum of what came in less what went out;
  -- nothing is changed.
  pub get_stats-AreTotals :
      (user_id statement_id : ℕ) (w : World)
      → (s : Stats) × (get_stats env user_id statement_id w ≡ (ok s, w))
        × AreTotals (stats_where user_id statement_id) w s
  unfolding get_stats
  get_stats-AreTotals user_id statement_id w =
      (_, refl, stats_of-AreTotals (stats_where user_id statement_id) w)

  category_found :
      (p : Transaction → Bool) (k : TransactionCategory) (w : World)
      → find? (λ g. category_eq g.key k) (by_category env p w)
        ≡ group_of amount_of k (filter (λ t. p t && category_eq t.category k) w.transactions)
  category_found p k w =
      env.db.group_by_law category_eq (λ t. t.category) (λ t. t.amount) p w.transactions k
        category_eq→≡ category_eq_refl

  breakdown_of_group :
      (k : TransactionCategory) (rows : List Transaction)
      → total_or_zero (Option.map (category_total) (group_of amount_of k rows))
        ≡ total amount_of rows
  unfolding total
  breakdown_of_group k [] = refl
  breakdown_of_group k (r ∷ rows) = refl

  -- The total that the breakdown of an overview gives a category is the sum of the amounts of
  -- that category's rows, in the range and of the user.
  pub category_total-overview :
      (user_id : ℕ) (range : DateRange) (category : TransactionCategory) (w : World)
      → category_total_of (overview_of env user_id range w) category
        ≡ total amount_of
            (filter (of_category category (overview_where user_id range)) w.transactions)
  category_total-overview user_id range category w =
      let p = overview_where user_id range in
      ap total_or_zero (
        find?-map_to (λ c. category_eq c.category category) category_total (by_category env p w)
        ∙ ap (Option.map category_total) (category_found p category w))
      ∙ breakdown_of_group category (filter (of_category category p) w.transactions)

  -- The totals of an overview are those of the rows of the user in the range, and nothing is
  -- changed.
  pub get_overview-AreTotals :
      (user_id : ℕ) (range : DateRange) (w : World)
      → let o = overview_of env user_id range w in
        (get_overview env user_id range w ≡ (ok o, w))
        × AreTotals (overview_where user_id range) w (record {
          total_transactions = o.total_transactions;
          total_credit = o.total_credit;
          total_debit = o.total_debit;
          net = o.net;
        })
  unfolding get_overview
  get_overview-AreTotals user_id range w =
      (refl, stats_of-AreTotals (overview_where user_id range) w)
