-- ===== src/Statements/Access.antt =====
-- Proofs about the access to a statement of src/module/statements/statements.service.ts.
use lexi_ledger_backend.Base.{
  ℕ, ◌≡◌, ◌∙◌, ap, sym, Bool, Option, none, some, find?, length, arith, ◌-◌, ◌*◌, filter_same, ◌==◌,
  ◌&&◌,
}
use lexi_ledger_backend.Schema.{UploadStatement, Transaction}
use lexi_ledger_backend.Platform.{World, ok, err, not_found, Env}
use lexi_ledger_backend.Transactions
use lexi_ledger_backend.Transactions.{
  Pagination, Page, Stats, listing_where, page_of, sorted_rows, ceil_div,
}
use lexi_ledger_backend.Transactions.Totals.{AreTotals, get_stats-AreTotals}
use lexi_ledger_backend.Statements.{
  is_of_user, find_by_id_for_user, get_stats, get_transactions, get_by_id, statement_not_found,
}

-- The statement with an id, if it is the user's.
abbrev pub stored : ℕ → ℕ → World → Option UploadStatement
stored id user_id w = find? (is_of_user id user_id) w.upload_statements

-- A row of a statement and a user.
abbrev pub is_of_statement : (statement_id user_id : ℕ) → Transaction → Bool
is_of_statement statement_id user_id t = t.user_id == user_id && t.statement_id == statement_id

module _ (env : Env) where
  find_by_id_for_user_lem :
      (id user_id : ℕ) (w : World)
      → find_by_id_for_user env id user_id w ≡ (ok (stored id user_id w), w)
  unfolding find_by_id_for_user
  find_by_id_for_user_lem id user_id w = rw env.db.find_first_law

  -- Of a statement that the user does not have, be it another user's, the service shows nothing:
  -- its statistics and its transactions are answered with `NotFoundException`, the statement
  -- itself with null, and nothing changes.
  pub foreign_statement_hidden :
      (id user_id : ℕ) (pagination : Pagination) (w : World)
      → stored id user_id w ≡ none
      → (get_stats env id user_id w ≡ (err (not_found statement_not_found), w))
        × (get_transactions env id user_id pagination w ≡ (err (not_found statement_not_found), w))
        × (get_by_id env id user_id w ≡ (ok none, w))
  unfolding get_stats get_transactions get_by_id
  foreign_statement_hidden id user_id pagination w foreign = (
    ground (arith, find_by_id_for_user_lem id user_id w, foreign),
    ground (arith, find_by_id_for_user_lem id user_id w, foreign),
    ground (arith, find_by_id_for_user_lem id user_id w, foreign),
  )

  -- Of a statement that the user has, the statistics are the totals over the user's transactions
  -- of that statement, and the listing tells how many they are; nothing is changed.
  pub own_statement_counted :
      (id user_id : ℕ) (pagination : Pagination) (w : World) {statement : UploadStatement}
      → stored id user_id w ≡ some statement
      → (s : Stats) × (p : Page Transaction) × (get_stats env id user_id w ≡ (ok s, w))
        × (get_transactions env id user_id pagination w ≡ (ok p, w))
        × AreTotals env (is_of_statement id user_id) w s
        × (p.total ≡ s.total_transactions)
  unfolding get_stats get_transactions Transactions.find_all
  own_statement_counted id user_id pagination w {statement} own =
      let where_ = listing_where user_id (some id) (record { start = none; end = none }) in
      let (s, answer, totals) = get_stats-AreTotals env user_id id w in
      (
        s,
        record {
          rows =
              page_of ((pagination.page - 1) * pagination.limit) pagination.limit
                (sorted_rows env where_ w);
          page = pagination.page;
          limit = pagination.limit;
          total = env.db.count where_ w.transactions;
          total_pages = ceil_div (env.db.count where_ w.transactions) pagination.limit;
        },
        ground (arith, find_by_id_for_user_lem id user_id w, own, answer),
        ground (arith, find_by_id_for_user_lem id user_id w, own),
        totals,
        env.db.count_law where_ w.transactions
            ∙ ap length
                (filter_same where_ (is_of_statement id user_id) w.transactions (λ t. ground arith))
            ∙ sym totals.counted,
      )
