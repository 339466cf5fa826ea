-- ===== src/Api/Privacy/Stores.antt =====
-- Proofs about src/module/budget and src/module/statements: the rows that they return to a user are
-- the user's.
use mathlib.Core.Option
use lexi_ledger_backend.Base.{
  ℕ, ◌+◌, String, Bool, true, not, Option, none, some, List, [], ◌∷◌, map, ◌≡◌, refl, str_eq, ◌==◌,
  ==_refl, arith, find?,
}
use lexi_ledger_backend.Base.Int.{pos}
use lexi_ledger_backend.Schema.{UploadStatement, TransactionCategory, Budget}
use lexi_ledger_backend.Platform.{World, Env, pure, ◌>>=◌, ◌>>◌}
use lexi_ledger_backend.Transactions
use lexi_ledger_backend.Transactions.{
  Pagination, Page, DateRange, is_of_user, category_eq, listing_where, corrections_of, sorted_rows,
}
use lexi_ledger_backend.Budgets
use lexi_ledger_backend.Budgets.{BudgetReport}
use lexi_ledger_backend.Statements
use lexi_ledger_backend.Statements.{File}
use lexi_ledger_backend.Api.Privacy.{every}
use lexi_ledger_backend.Api.Privacy.Returns.{
  Holds, Returns, Returns-pure, Returns-throw, Returns-bind, Returns-any, Returns-unless,
  Returns-accepted,
}
use lexi_ledger_backend.Api.Privacy.Rows.{
  every-page_of, every-find_many, every-order_by, AtMost, find?-AtMost, find_first-AtMost,
}
use lexi_ledger_backend.Api.Privacy.Services.{
  own_budget, own_statement, IsOwnPage, Returns-find_all,
}

module _ (env : Env) (user_id : ℕ) where
  abbrev pub own_report : BudgetReport → Bool
  own_report r = r.budget.user_id == user_id

  every-reports :
      (overview : Transactions.Overview) (budgets : List Budget)
      → every (own_budget env user_id) budgets ≡ true
      → every own_report (map (Budgets.report env overview) budgets) ≡ true
  every-reports overview [] h = refl
  every-reports overview (b ∷ budgets) h = ground (arith, every-reports overview budgets)

  pub Returns-reports :
      (month : Option String)
      → Returns (λ rs. every own_report rs ≡ true) (Budgets.find_all env user_id month)
  unfolding Budgets.find_all Budgets.find_all_for_user Transactions.get_overview
  Returns-reports month =
      Returns-bind (Budgets.chosen_range env month)
        (λ range. do
          budgets ← Budgets.find_all_for_user env user_id
          overview ← Transactions.get_overview env user_id range
          pure (map (Budgets.report env overview) budgets))
        (Returns-any _)
        (λ range h. record {
          at = λ w. every-reports (Transactions.overview_of env user_id range w) _ (
              every-find_many (own_budget env user_id) env (λ b. b.user_id == user_id) w.budgets
                (λ r e. e));
        })

  upserted :
      (new : Budget) (limit : ℕ) (o : Option Budget) (rows : List Budget) (w : World)
      → own_budget env user_id new ≡ true
      → AtMost (own_budget env user_id) o
      → Holds
          (λ b. own_budget env user_id b ≡ true)
          (Budgets.store_upserted env new
            (Option.map (λ b. (Budgets.with_limit env limit b, rows)) o)
            w).0
  upserted new limit none rows w k h = k
  upserted new limit (some b) rows w k h = h

  pub Returns-set :
      (category : TransactionCategory) (limit : ℕ)
      → Returns (λ b. own_budget env user_id b ≡ true) (Budgets.set env user_id category limit)
  unfolding Budgets.set Budgets.upsert
  Returns-set category limit =
      Returns-accepted (env.db.refusal [] (pos limit ∷ []))
        (Budgets.upsert_accepted env user_id category limit)
        (record {
          at = λ w.
              let p = Budgets.is_budget_of user_id category in
              rw (env.db.update_law p (Budgets.with_limit env limit) w.budgets) (
                upserted _ limit (find? p w.budgets) _ (record w { ids = w.ids + 1 })
                  (==_refl user_id)
                  (find?-AtMost (own_budget env user_id) p w.budgets (λ r e. ground arith)));
        })

  deleted :
      (o : Option Budget) (rows : List Budget) (w : World)
      → AtMost (own_budget env user_id) o
      → Holds
          (λ b. own_budget env user_id b ≡ true)
          (Budgets.store_deleted env (Option.map (λ b. (b, rows)) o) w).0
  deleted none rows w h = tt
  deleted (some b) rows w h = h

  Returns-remove_found :
      (category : TransactionCategory) (o : Option Budget)
      → Returns (λ b. own_budget env user_id b ≡ true) (Budgets.remove_found env user_id category o)
  unfolding Budgets.delete
  Returns-remove_found category none = Returns-throw _
  Returns-remove_found category (some _) = record {
    at = λ w.
        let p = Budgets.is_budget_of user_id category in
        rw (env.db.delete_law p w.budgets) (
          deleted (find? p w.budgets) _ w
            (find?-AtMost (own_budget env user_id) p w.budgets (λ r e. ground arith)));
  }

  pub Returns-remove :
      (category : TransactionCategory)
      → Returns (λ b. own_budget env user_id b ≡ true) (Budgets.remove env user_id category)
  unfolding Budgets.remove
  Returns-remove category =
      Returns-bind (Budgets.find_one env user_id category) _ (Returns-any _)
        (λ o h. Returns-remove_found category o)

  -- Statements.
  pub Returns-statement :
      (id : ℕ) → Returns (AtMost (own_statement env user_id)) (Statements.get_by_id env id user_id)
  unfolding Statements.get_by_id Statements.find_by_id_for_user
  Returns-statement id = record {
    at = λ w.
        find_first-AtMost (own_statement env user_id) env (Statements.is_of_user id user_id)
          w.upload_statements (λ r e. ground arith);
  }

  pub Returns-statements :
      (query : Pagination)
      → Returns
          (λ p. every (own_statement env user_id) p.rows ≡ true)
          (Statements.find_all env user_id query)
  unfolding Statements.find_all Statements.find_all_for_user
  Returns-statements query = record {
    at = λ w. every-page_of (own_statement env user_id) _ query.limit _ (
        every-order_by (own_statement env user_id) env (λ s. s.uploaded_at) (λ _. 0) _
          (every-find_many (own_statement env user_id) env (λ s. s.user_id == user_id)
            w.upload_statements (λ r e. e)));
  }

  transactions_found :
      (id : ℕ) (query : Pagination) (o : Option UploadStatement)
      → Returns (IsOwnPage env user_id) (Statements.transactions_found env id user_id query o)
  transactions_found id query none = Returns-throw _
  transactions_found id query (some s) = Returns-find_all env user_id query (some id) _

  pub Returns-statement_transactions :
      (id : ℕ) (query : Pagination)
      → Returns (IsOwnPage env user_id) (Statements.get_transactions env id user_id query)
  unfolding Statements.get_transactions
  Returns-statement_transactions id query =
      Returns-bind (Statements.find_by_id_for_user env id user_id) _ (Returns-any _)
        (λ o h. transactions_found id query o)

  created :
      (s : UploadStatement) (o : Option (List UploadStatement)) (w : World)
      → own_statement env user_id s ≡ true
      → Holds (λ s. own_statement env user_id s ≡ true) (Statements.store_created env s o w).0
  created s none w h = tt
  created s (some rows) w h = h

  Returns-create :
      (input : Statements.CreateUploadStatementInput)
      → input.user_id ≡ user_id
      → Returns (λ s. own_statement env user_id s ≡ true) (Statements.create env input)
  unfolding Statements.create
  Returns-create input k = record { at = λ w. created _ _ _ (ground (arith, ==_refl user_id)) }

  queued :
      (input : Statements.CreateUploadStatementInput)
      → input.user_id ≡ user_id
      → Returns
          (λ s. own_statement env user_id s ≡ true)
          (Statements.create env input >>= λ s. Statements.enqueue env s.id >> pure s)
  queued input k =
      Returns-bind (Statements.create env input) (λ s. Statements.enqueue env s.id >> pure s)
        (Returns-create input k) (λ s own. record { at = λ w. own })

  Returns-upload_found :
      (file : File) (content_hash : String) (o : Option UploadStatement)
      → AtMost (own_statement env user_id) o
      → Returns
          (λ s. own_statement env user_id s ≡ true)
          (Statements.upload_found env user_id file content_hash o)
  unfolding Statements.upload_new
  Returns-upload_found file content_hash (some s) h = Returns-pure s h
  Returns-upload_found file content_hash none h =
      Returns-bind (Statements.storage_upload env file.buffer (env.extname file.original_name))
        (λ key. do
          s ← Statements.create env (record {
            user_id = user_id;
            filename = file.original_name;
            content_hash = content_hash;
            storage_path = key;
          })
          Statements.enqueue env s.id
          pure s)
        (Returns-any _) (λ key _. queued _ refl)

  pub Returns-upload :
      (file : File)
      → Returns (λ s. own_statement env user_id s ≡ true) (Statements.upload env user_id file)
  unfolding Statements.upload Statements.find_by_user_and_hash
  Returns-upload file = Returns-unless (not (str_eq file.mimetype "application/pdf")) _ _ (
      Returns-bind (Statements.find_by_user_and_hash env user_id (env.sha256 file.buffer)) _
        (record {
          at = λ w.
              find_first-AtMost (own_statement env user_id) env
                (Statements.has_content user_id (env.sha256 file.buffer)) w.upload_statements
                (λ r e. ground arith);
        })
        (Returns-upload_found file (env.sha256 file.buffer)))
