-- ===== src/Transactions.antt =====
-- src/module/transactions and src/module/dashboard: the listing of transactions, their totals, and
-- the correction of a category with its audit trail.
mod Data
pub use Data.*
pub mod Totals
pub mod Correction
pub mod Pages
use lexi_ledger_backend.Base.{
  ℕ, ◌+◌, ◌-◌, ◌*◌, ◌/◌, String, Bool, true, false, Option, none, some, List, [], ◌∷◌, map, ◌==◌,
  ◌&&◌, not, if◌then◌else◌, is_some, leb, find?, take, drop, length, get_or_else,
}
use lexi_ledger_backend.Base.Int.{ℤ, pos, ◌-ℤ◌}
use lexi_ledger_backend.Schema.{
  Transaction, TransactionCorrection, TransactionType, debit, credit, TransactionCategory, food,
  transport, rent, utilities, subscriptions, shopping, entertainment, income, other, Number,
}
use lexi_ledger_backend.Platform.{
  World, Action, pure, gets, throw, modify, ◌>>=◌, ◌>>◌, not_found, prisma, p2025, p2020, throw_if,
  Env, now, new_id, Group, refuse,
}

module _ (env : Env) where
  -- The repository.
  -- Newest first.
  unfoldable pub find_corrections : ℕ → ℕ → Action (List TransactionCorrection)
  find_corrections user_id transaction_id = gets λ w.
      env.db.order_by (λ c. c.corrected_at) (λ _. 0)
        (env.db.find_many (corrections_of user_id transaction_id) w.corrections)

  -- `groupBy` of the amounts, by type and by category.
  abbrev pub by_type : (Transaction → Bool) → World → List (Group TransactionType)
  by_type where_ w = env.db.group_by type_eq (λ t. t.type) (λ t. t.amount) where_ w.transactions

  abbrev pub by_category : (Transaction → Bool) → World → List (Group TransactionCategory)
  by_category where_ w =
      env.db.group_by category_eq (λ t. t.category) (λ t. t.amount) where_ w.transactions

  -- The two writes of `correct` are one database transaction: if the update finds no row, neither
  -- is made.
  abbrev pub store_corrected :
      TransactionCorrection → Option (Transaction × List Transaction) → Action Transaction
  store_corrected c none = throw (prisma p2025)
  store_corrected c (some (t, rows)) =
      modify (λ w. record w {
        transactions = rows;
        corrections = env.db.create_many (c ∷ []) w.corrections;
      })
      >> pure t

  unfoldable pub apply_correction :
      (user_id id : ℕ) (previous new : TransactionCategory) → Action Transaction
  apply_correction user_id id previous new = do
    correction_id ← new_id env
    t ← now env
    rows ← gets (λ w. w.transactions)
    store_corrected
        (record {
          id = correction_id;
          transaction_id = id;
          user_id = user_id;
          previous_category = previous;
          new_category = new;
          corrected_at = t;
        })
        (env.db.update (is_of_user id user_id) (λ r. record r { category = new }) rows)

  unfoldable pub find_by_id_for_user : ℕ → ℕ → Action (Option Transaction)
  find_by_id_for_user id user_id =
      gets (λ w. env.db.find_first (is_of_user id user_id) w.transactions)

  -- The rows of `findAllForUser`, newest first, and by id where dates tie.
  abbrev pub sorted_rows : (Transaction → Bool) → World → List Transaction
  sorted_rows where_ w =
      env.db.order_by (λ t. t.date) (λ t. t.id) (env.db.find_many where_ w.transactions)

  -- The service.
  unfoldable pub create_many : List CreateTransactionInput → Action (Unit {0})
  create_many inputs = do
    refuse (env.db.refusal (dates_of inputs) (amounts_of inputs))
    modify λ w. record w {
      transactions = env.db.create_many (new_rows env w.ids inputs) w.transactions;
      ids = w.ids + length inputs;
    }

  abbrev pub corrections_found : ℕ → ℕ → Option Transaction → Action (List TransactionCorrection)
  corrections_found id user_id none = throw (not_found transaction_not_found)
  corrections_found id user_id (some _) = find_corrections user_id id

  unfoldable pub get_corrections : (id user_id : ℕ) → Action (List TransactionCorrection)
  get_corrections id user_id = do
    transaction ← find_by_id_for_user id user_id
    corrections_found id user_id transaction

  -- What `getOverview` computes from the groups of both queries.
  abbrev pub overview_of : ℕ → DateRange → World → Overview
  overview_of user_id range w =
      let stats : Stats = stats_of (by_type (overview_where user_id range) w) in
      record {
        total_transactions = stats.total_transactions;
        total_credit = stats.total_credit;
        total_debit = stats.total_debit;
        net = stats.net;
        category_breakdown = map category_total (by_category (overview_where user_id range) w);
      }

  unfoldable pub get_overview : ℕ → DateRange → Action Overview
  get_overview user_id range = gets (overview_of user_id range)

  unfoldable pub get_stats : (user_id statement_id : ℕ) → Action Stats
  get_stats user_id statement_id =
      gets (λ w. stats_of (by_type (stats_where user_id statement_id) w))

  abbrev pub correct_found :
      (user_id id : ℕ) → TransactionCategory → Option Transaction → Action Transaction
  correct_found user_id id category none = throw (not_found transaction_not_found)
  correct_found user_id id category (some transaction) =
      if category_eq transaction.category category
      then pure transaction
      else apply_correction user_id id transaction.category category

  unfoldable pub correct : (user_id id : ℕ) → TransactionCategory → Action Transaction
  correct user_id id category = do
    transaction ← find_by_id_for_user id user_id
    correct_found user_id id category transaction

  unfoldable pub find_all : ℕ → Pagination → Option ℕ → DateRange → Action (Page Transaction)
  find_all user_id pagination statement_id range = gets λ w.
      let where_ = listing_where user_id statement_id range in
      let skip = (pagination.page - 1) * pagination.limit in
      let total = env.db.count where_ w.transactions in
      record {
        rows = page_of skip pagination.limit (sorted_rows where_ w);
        page = pagination.page;
        limit = pagination.limit;
        total = total;
        total_pages = ceil_div total pagination.limit;
      }
