-- ===== src/Api/Controllers.antt =====
-- The controllers under src/module other than auth.controller.ts: what each handler asks of its
-- service.
use lexi_ledger_backend.Base.{ℕ, String, Option, none, some}
use lexi_ledger_backend.Schema.{TransactionCategory, UploadStatement}
use lexi_ledger_backend.Platform.{Action, pure, ◌>>=◌, Env}
use lexi_ledger_backend.Users
use lexi_ledger_backend.Transactions
use lexi_ledger_backend.Transactions.{Pagination}
use lexi_ledger_backend.Budgets
use lexi_ledger_backend.Statements
use lexi_ledger_backend.Statements.{File}
use lexi_ledger_backend.AuthController.{Response, keep}
use lexi_ledger_backend.Api.Envelope.{Value, paginate}
use lexi_ledger_backend.Api.Guard.{CurrentUserPayload}
use lexi_ledger_backend.Api.Routes.{range_of}

-- A handler returns what its service does, and no cookie.
abbrev pub returned : {A : Type 0} → (A → Value) → Action A → Action (Response Value)
returned value m = do result ← m; pure (record { body = value result; cookie = keep })

abbrev pub statement_or_null : Option UploadStatement → Value
statement_or_null none = Value.null
statement_or_null (some s) = Value.statement s

module _ (env : Env) (current : CurrentUserPayload) where
  -- UsersController
  unfoldable pub get_me : Action (Response Value)
  get_me = returned Value.user (Users.get_me env current.user_id)

  unfoldable pub update_name : String → Action (Response Value)
  update_name name = returned Value.user (Users.update_name env current.user_id name)

  -- DashboardController
  unfoldable pub get_overview : (from to : Option String) → Action (Response Value)
  get_overview from to =
      returned Value.overview
        (range_of env from to >>= Transactions.get_overview env current.user_id)

  -- TransactionsController
  unfoldable pub get_corrections : ℕ → Action (Response Value)
  get_corrections id =
      returned Value.corrections (Transactions.get_corrections env id current.user_id)

  unfoldable pub correct_transaction : ℕ → TransactionCategory → Action (Response Value)
  correct_transaction id category =
      returned Value.transaction (Transactions.correct env current.user_id id category)

  unfoldable pub list_transactions :
      Pagination → (from to : Option String) → Action (Response Value)
  list_transactions query from to =
      returned (paginate Value.transactions)
        (range_of env from to >>= Transactions.find_all env current.user_id query none)

  -- BudgetsController
  unfoldable pub find_budgets : Option String → Action (Response Value)
  find_budgets month = returned Value.budgets (Budgets.find_all env current.user_id month)

  unfoldable pub set_budget : TransactionCategory → ℕ → Action (Response Value)
  set_budget category monthly_limit =
      returned Value.budget (Budgets.set env current.user_id category monthly_limit)

  unfoldable pub remove_budget : TransactionCategory → Action (Response Value)
  remove_budget category = returned Value.budget (Budgets.remove env current.user_id category)

  -- StatementsController
  unfoldable pub get_statement_transactions : ℕ → Pagination → Action (Response Value)
  get_statement_transactions id query =
      returned (paginate Value.transactions)
        (Statements.get_transactions env id current.user_id query)

  unfoldable pub get_statement_stats : ℕ → Action (Response Value)
  get_statement_stats id = returned Value.stats (Statements.get_stats env id current.user_id)

  unfoldable pub list_statements : Pagination → Action (Response Value)
  list_statements query =
      returned (paginate Value.statements) (Statements.find_all env current.user_id query)

  unfoldable pub get_by_id : ℕ → Action (Response Value)
  get_by_id id = returned statement_or_null (Statements.get_by_id env id current.user_id)

  unfoldable pub upload : File → Action (Response Value)
  upload file = returned Value.statement (Statements.upload env current.user_id file)
