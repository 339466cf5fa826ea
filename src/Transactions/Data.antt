-- ===== src/Transactions/Data.antt =====
-- The records of src/module/transactions, the conditions of its queries, and what is computed from
-- the groups that they answer with.
use lexi_ledger_backend.Base.{
  ℕ, ◌+◌, ◌-◌, ◌/◌, String, Bool, true, false, Option, none, some, List, [], ◌∷◌, ◌==◌, ◌&&◌, leb,
  find?, take, drop, get_or_else,
}
use lexi_ledger_backend.Base.Int.{ℤ, pos, ◌-ℤ◌}
use lexi_ledger_backend.Schema.{
  Transaction, TransactionCorrection, TransactionType, debit, credit, TransactionCategory, food,
  transport, rent, utilities, subscriptions, shopping, entertainment, income, other, Number,
}
use lexi_ledger_backend.Platform.{Env, Group}

abbrev pub type_eq : TransactionType → TransactionType → Bool
type_eq debit debit = true
type_eq credit credit = true
type_eq debit credit = false
type_eq credit debit = false

-- The categories by number, in the order of the schema.
abbrev pub category_index : TransactionCategory → ℕ
category_index food = 0
category_index transport = 1
category_index rent = 2
category_index utilities = 3
category_index subscriptions = 4
category_index shopping = 5
category_index entertainment = 6
category_index income = 7
category_index other = 8

abbrev pub category_eq : TransactionCategory → TransactionCategory → Bool
category_eq a b = category_index a == category_index b

-- `CreateTransactionInput`; a date is `none` where it is an Invalid Date.
pub record CreateTransactionInput : Type 0 where
  pub user_id : ℕ
  pub statement_id : ℕ
  pub date : Option ℕ
  pub description : String
  pub amount : ℤ
  pub type : TransactionType
  pub category : TransactionCategory
  pub confidence : Number

-- `{ from?, to? }`, as the times that the texts name.
pub record DateRange : Type 0 where
  pub start : Option ℕ
  pub end : Option ℕ

-- `gte: new Date(from)` where `from` is given, and `lte: new Date(to)` where `to` is.
abbrev pub not_before : Option ℕ → ℕ → Bool
not_before none date = true
not_before (some from) date = leb from date

abbrev pub not_after : Option ℕ → ℕ → Bool
not_after none date = true
not_after (some to) date = leb date to

-- `dateRangeWhere`
abbrev pub date_range_where : DateRange → Transaction → Bool
date_range_where range t = not_before range.start t.date && not_after range.end t.date

-- `...(statementId ? { statementId } : {})`
abbrev pub statement_where : Option ℕ → Transaction → Bool
statement_where none t = true
statement_where (some id) t = t.statement_id == id

-- `{ page, limit }`
pub record Pagination : Type 0 where
  pub page : ℕ
  pub limit : ℕ

-- `{ data, meta }`
pub record Page (Row : Type 0) : Type 0 where
  pub rows : List Row
  pub page : ℕ
  pub limit : ℕ
  pub total : ℕ
  pub total_pages : ℕ

-- `Math.ceil(total / limit)`, for a limit of one or more.
abbrev pub ceil_div : ℕ → ℕ → ℕ
ceil_div total limit = (total + limit - 1) / limit

-- `skip` and `take` of a query.
abbrev pub page_of : {Row : Type 0} → ℕ → ℕ → List Row → List Row
page_of skip limit rows = take limit (drop skip rows)

pub record CategoryTotal : Type 0 where
  pub category : TransactionCategory
  pub total : ℤ
  pub count : ℕ

pub record Stats : Type 0 where
  pub total_transactions : ℕ
  pub total_credit : ℤ
  pub total_debit : ℤ
  pub net : ℤ

pub record Overview : Type 0 where
  pub total_transactions : ℕ
  pub total_credit : ℤ
  pub total_debit : ℤ
  pub net : ℤ
  pub category_breakdown : List CategoryTotal

-- `g?._sum.amount ?? 0` and `g?._count ?? 0`
abbrev pub sum_or_zero : {K : Type 0} → Option (Group K) → ℤ
sum_or_zero none = pos 0
sum_or_zero (some g) = get_or_else g.sum (pos 0)

abbrev pub count_or_zero : {K : Type 0} → Option (Group K) → ℕ
count_or_zero none = 0
count_or_zero (some g) = g.count

abbrev pub transaction_not_found : String
transaction_not_found = "Transaction not found"

-- The conditions of the queries.
abbrev pub corrections_of : ℕ → ℕ → TransactionCorrection → Bool
corrections_of user_id transaction_id c = c.user_id == user_id && c.transaction_id == transaction_id

abbrev pub overview_where : ℕ → DateRange → Transaction → Bool
overview_where user_id range t = t.user_id == user_id && date_range_where range t

abbrev pub stats_where : ℕ → ℕ → Transaction → Bool
stats_where user_id statement_id t = t.user_id == user_id && t.statement_id == statement_id

abbrev pub is_of_user : ℕ → ℕ → Transaction → Bool
is_of_user id user_id t = t.id == id && t.user_id == user_id

abbrev pub listing_where : ℕ → Option ℕ → DateRange → Transaction → Bool
listing_where user_id statement_id range t =
    t.user_id == user_id && statement_where statement_id t && date_range_where range t

abbrev pub stats_of : List (Group TransactionType) → Stats
stats_of grouped =
    let credits = find? (λ g. type_eq g.key credit) grouped in
    let debits = find? (λ g. type_eq g.key debit) grouped in
    record {
      total_transactions = count_or_zero credits + count_or_zero debits;
      total_credit = sum_or_zero credits;
      total_debit = sum_or_zero debits;
      net = sum_or_zero credits -ℤ sum_or_zero debits;
    }

-- `{ category: g.category, total: g._sum.amount ?? 0, count: g._count }`
abbrev pub category_total : Group TransactionCategory → CategoryTotal
category_total g = record { category = g.key; total = get_or_else g.sum (pos 0); count = g.count }

-- `categoryBreakdown.find((c) => c.category === category)?.total ?? 0`, as the budgets read it.
abbrev pub total_or_zero : Option CategoryTotal → ℤ
total_or_zero none = pos 0
total_or_zero (some c) = c.total

abbrev pub category_total_of : Overview → TransactionCategory → ℤ
category_total_of overview category =
    total_or_zero (find? (λ c. category_eq c.category category) overview.category_breakdown)

-- The dates and the amounts of the rows that are to be written.
abbrev pub dates_of : List CreateTransactionInput → List (Option ℕ)
dates_of [] = []
dates_of (input ∷ inputs) = input.date ∷ dates_of inputs

abbrev pub amounts_of : List CreateTransactionInput → List ℤ
amounts_of [] = []
amounts_of (input ∷ inputs) = input.amount ∷ amounts_of inputs

-- The rows that `createMany` writes, with the uuids from the k-th on; it is reached with valid
-- dates only.
abbrev pub new_rows : Env → ℕ → List CreateTransactionInput → List Transaction
new_rows env k [] = []
new_rows env k (input ∷ inputs) =
    record {
      id = env.uuid k;
      user_id = input.user_id;
      statement_id = input.statement_id;
      date = get_or_else input.date 0;
      description = input.description;
      amount = input.amount;
      type = input.type;
      category = input.category;
      confidence = input.confidence;
    }
    ∷ new_rows env (k + 1) inputs
