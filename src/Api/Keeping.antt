-- ===== src/Api/Keeping.antt =====
-- Proofs about the routes under `JwtAuthGuard` of src/module: what the services that write keep, every
-- request keeps.
use lexi_ledger_backend.Base.{ℕ, ◌+◌, String, Option, none, some, str_eq, [], ◌++◌, map, ◌≡◌}
use lexi_ledger_backend.Schema.{UploadStatement, Transaction, User, TransactionCategory}
use lexi_ledger_backend.Platform.{World, Action, Result, ok, err, Env, JwtPayload, now, pure, ◌>>=◌}
use lexi_ledger_backend.Platform.Keeps.{
  Keeps, Keeps-pure, Keeps-throw, Keeps-gets, Keeps-if, Keeps-bind, Keeps-accepted,
}
use lexi_ledger_backend.Calendar.{utc_full_year, utc_month}
use lexi_ledger_backend.RefreshTokens
use lexi_ledger_backend.Users
use lexi_ledger_backend.Transactions
use lexi_ledger_backend.Transactions.{Pagination}
use lexi_ledger_backend.Budgets
use lexi_ledger_backend.Statements
use lexi_ledger_backend.Statements.{File}
use lexi_ledger_backend.AuthService
use lexi_ledger_backend.AuthController
use lexi_ledger_backend.AuthController.{Response}
use lexi_ledger_backend.Api.Envelope.{Value, Method, Thrown, catch_exception, thrown}
use lexi_ledger_backend.Api.Guard.{CurrentUserPayload, jwt_auth_guard, validate}
use lexi_ledger_backend.Api.Routes.{UserRoute, is_valid, method_of, range_of, ends_given}
use lexi_ledger_backend.Api.Controllers
use lexi_ledger_backend.Api

-- What a predicate on worlds needs for every request of a user to keep it: no reading of the clock
-- touches it, and each of the services that write keeps it.
pub record IsKeptByWrites (env : Env) (user_id : ℕ) (P : World → Type 0) : Type 0 where
  pub clock_read : (w : World) → P w → P (record w { reads = w.reads + 1 })
  pub revoke_all : Keeps P (RefreshTokens.revoke_all_for_user env user_id)
  pub update_name : (name : String) → Keeps P (Users.update_name env user_id name)
  pub set :
      (category : TransactionCategory) (limit : ℕ)
      → Keeps P (Budgets.set env user_id category limit)
  pub remove : (category : TransactionCategory) → Keeps P (Budgets.remove env user_id category)
  pub correct :
      (id : ℕ) (category : TransactionCategory)
      → Keeps P (Transactions.correct env user_id id category)
  pub upload : (file : File) → Keeps P (Statements.upload env user_id file)

module _ (env : Env) (node_env : String) (P : World → Type 0) where
  module _ (current : CurrentUserPayload) (writes : IsKeptByWrites env current.user_id P) where
    abbrev Kept : {A : Type 0} → Action A → Type 0
    Kept m = Keeps P m

    Keeps-returned :
        {A : Type 0} (value : A → Value) (m : Action A)
        → Kept m
        → Kept (Controllers.returned value m)
    Keeps-returned value m h = Keeps-bind m _ h (λ a. Keeps-pure _)

    Keeps-logout_all : Kept (AuthController.logout_all env node_env current.user_id)
    unfolding AuthController.logout_all AuthService.logout_all
    Keeps-logout_all =
        Keeps-bind (RefreshTokens.revoke_all_for_user env current.user_id) _ writes.revoke_all
          (λ _. Keeps-pure _)

    Keeps-safe : (o : Option User) → Kept (Users.safe_or_not_found env o)
    Keeps-safe none = Keeps-throw _
    Keeps-safe (some u) = Keeps-pure _

    Keeps-get_me : Kept (Users.get_me env current.user_id)
    unfolding Users.get_me Users.find_by_id
    Keeps-get_me = Keeps-bind (Users.find_by_id env current.user_id) _ (Keeps-gets _) Keeps-safe

    Keeps-corrections_found :
        (id : ℕ) (o : Option Transaction)
        → Kept (Transactions.corrections_found env id current.user_id o)
    unfolding Transactions.find_corrections
    Keeps-corrections_found id none = Keeps-throw _
    Keeps-corrections_found id (some t) = Keeps-gets _

    Keeps-get_corrections : (id : ℕ) → Kept (Transactions.get_corrections env id current.user_id)
    unfolding Transactions.get_corrections Transactions.find_by_id_for_user
    Keeps-get_corrections id =
        Keeps-bind (Transactions.find_by_id_for_user env id current.user_id) _ (Keeps-gets _)
          (Keeps-corrections_found id)

    Keeps-range_of : (from to : Option String) → Kept (range_of env from to)
    unfolding range_of
    Keeps-range_of from to =
        Keeps-accepted (env.db.refusal (ends_given env from ++ ends_given env to) []) _
          (Keeps-pure _)

    Keeps-get_overview :
        (from to : Option String)
        → Kept (range_of env from to >>= Transactions.get_overview env current.user_id)
    unfolding Transactions.get_overview
    Keeps-get_overview from to =
        Keeps-bind (range_of env from to) (Transactions.get_overview env current.user_id)
          (Keeps-range_of from to) (λ range. record { at = λ w h. h })

    Keeps-list_transactions :
        (query : Pagination) (from to : Option String)
        → Kept (range_of env from to >>= Transactions.find_all env current.user_id query none)
    unfolding Transactions.find_all
    Keeps-list_transactions query from to =
        Keeps-bind (range_of env from to) (Transactions.find_all env current.user_id query none)
          (Keeps-range_of from to) (λ range. record { at = λ w h. h })

    Keeps-parts : (o : Option (ℕ × ℕ)) → Kept (Budgets.range_of_parts env o)
    Keeps-parts none = Keeps-throw _
    Keeps-parts (some year_and_m) = Keeps-pure _

    Keeps-month_range : (month : String) → Kept (Budgets.get_month_range env month)
    unfolding Budgets.get_month_range
    Keeps-month_range month = Keeps-parts (Budgets.year_and_month month)

    Keeps-current_range : Kept (Budgets.get_current_month_range env)
    unfolding Budgets.get_current_month_range
    Keeps-current_range =
        Keeps-bind (now env)
          (λ t. Budgets.get_month_range env (Budgets.month_text (utc_full_year t) (utc_month t)))
          (record { at = writes.clock_read }) (λ t. Keeps-month_range _)

    Keeps-chosen_range : (month : Option String) → Kept (Budgets.chosen_range env month)
    unfolding Budgets.chosen_range
    Keeps-chosen_range none = Keeps-current_range
    Keeps-chosen_range (some month) =
        Keeps-if (str_eq month "") (Budgets.get_current_month_range env)
          (Budgets.get_month_range env month) Keeps-current_range (Keeps-month_range month)

    Keeps-find_budgets : (month : Option String) → Kept (Budgets.find_all env current.user_id month)
    unfolding Budgets.find_all Budgets.find_all_for_user Transactions.get_overview
    Keeps-find_budgets month =
        Keeps-bind (Budgets.chosen_range env month)
          (λ range. do
            budgets ← Budgets.find_all_for_user env current.user_id
            overview ← Transactions.get_overview env current.user_id range
            pure (map (Budgets.report env overview) budgets))
          (Keeps-chosen_range month) (λ range. record { at = λ w h. h })

    Keeps-stats_found :
        (id : ℕ) (o : Option UploadStatement)
        → Kept (Statements.stats_found env id current.user_id o)
    unfolding Transactions.get_stats
    Keeps-stats_found id none = Keeps-throw _
    Keeps-stats_found id (some s) = Keeps-gets _

    Keeps-get_stats : (id : ℕ) → Kept (Statements.get_stats env id current.user_id)
    unfolding Statements.get_stats Statements.find_by_id_for_user
    Keeps-get_stats id =
        Keeps-bind (Statements.find_by_id_for_user env id current.user_id) _ (Keeps-gets _)
          (Keeps-stats_found id)

    Keeps-transactions_found :
        (id : ℕ) (query : Pagination) (o : Option UploadStatement)
        → Kept (Statements.transactions_found env id current.user_id query o)
    unfolding Transactions.find_all
    Keeps-transactions_found id query none = Keeps-throw _
    Keeps-transactions_found id query (some s) = Keeps-gets _

    Keeps-get_transactions :
        (id : ℕ) (query : Pagination)
        → Kept (Statements.get_transactions env id current.user_id query)
    unfolding Statements.get_transactions Statements.find_by_id_for_user
    Keeps-get_transactions id query =
        Keeps-bind (Statements.find_by_id_for_user env id current.user_id) _ (Keeps-gets _)
          (Keeps-transactions_found id query)

    Keeps-list_statements :
        (query : Pagination) → Kept (Statements.find_all env current.user_id query)
    unfolding Statements.find_all Statements.find_all_for_user
    Keeps-list_statements query = record { at = λ w h. h }

    Keeps-handle : (route : UserRoute) → Kept (Api.handle_user env node_env current route)
    unfolding Api.handle_user Controllers.get_me Controllers.update_name Controllers.get_overview
        Controllers.get_corrections Controllers.correct_transaction Controllers.list_transactions
        Controllers.find_budgets Controllers.set_budget Controllers.remove_budget
        Controllers.get_statement_transactions Controllers.get_statement_stats
        Controllers.list_statements Controllers.get_by_id Controllers.upload Statements.get_by_id
        Statements.find_by_id_for_user
    Keeps-handle (UserRoute.logout_all) =
        Keeps-bind (AuthController.logout_all env node_env current.user_id) _ Keeps-logout_all
          (λ response. Keeps-pure _)
    Keeps-handle (UserRoute.get_me) = Keeps-returned _ _ Keeps-get_me
    Keeps-handle (UserRoute.update_name name) = Keeps-returned _ _ (writes.update_name name)
    Keeps-handle (UserRoute.get_overview from to) =
        Keeps-returned Value.overview _ (Keeps-get_overview from to)
    Keeps-handle (UserRoute.list_transactions query from to) =
        Keeps-returned _ _ (Keeps-list_transactions query from to)
    Keeps-handle (UserRoute.correct_transaction id category) =
        Keeps-returned _ _ (writes.correct id category)
    Keeps-handle (UserRoute.get_corrections id) = Keeps-returned _ _ (Keeps-get_corrections id)
    Keeps-handle (UserRoute.find_budgets month) = Keeps-returned _ _ (Keeps-find_budgets month)
    Keeps-handle (UserRoute.set_budget category limit) =
        Keeps-returned _ _ (writes.set category limit)
    Keeps-handle (UserRoute.remove_budget category) = Keeps-returned _ _ (writes.remove category)
    Keeps-handle (UserRoute.upload file) = Keeps-returned _ _ (writes.upload file)
    Keeps-handle (UserRoute.list_statements query) =
        Keeps-returned _ _ (Keeps-list_statements query)
    Keeps-handle (UserRoute.get_statement id) = record { at = λ w h. h }
    Keeps-handle (UserRoute.get_statement_stats id) = Keeps-returned _ _ (Keeps-get_stats id)
    Keeps-handle (UserRoute.get_statement_transactions id query) =
        Keeps-returned _ _ (Keeps-get_transactions id query)

    Keeps-refuse :
        (url : String) (exception : Thrown) → Kept (Api.refuse env node_env url exception)
    unfolding Api.refuse catch_exception
    Keeps-refuse url exception = record { at = writes.clock_read }

    Keeps-replied :
        (url : String) (method : Method) (r : Result (Response Value))
        → Kept (Api.replied env node_env url method r)
    Keeps-replied url method (ok response) = Keeps-pure _
    Keeps-replied url method (err e) = Keeps-refuse url (thrown e)

    Keeps-attempt : {A : Type 0} (m : Action A) → Kept m → Kept (Api.attempt m)
    Keeps-attempt m h = record { at = h.at }

    Keeps-run :
        (url : String) (method : Method) (handler : Action (Response Value))
        → Kept handler
        → Kept (Api.run_handler env node_env url method handler)
    unfolding Api.run_handler
    Keeps-run url method handler h =
        Keeps-bind (Api.attempt handler) _ (Keeps-attempt handler h) (Keeps-replied url method)

    pub Keeps-respond_as :
        (url : String) (route : UserRoute)
        → Kept (Api.respond_as env node_env url route (ok current))
    Keeps-respond_as url route =
        Keeps-if (is_valid env route) _ _ (Keeps-run url (method_of route) _ (Keeps-handle route))
          (Keeps-refuse url _)

  -- A request with a token that passes the check, of the user that the token names.
  pub Keeps-respond_user :
      (url token : String) (route : UserRoute) (w : World) {payload : JwtPayload}
      → env.jwt_verify (env.clock w.reads) token ≡ some payload
      → IsKeptByWrites env payload.sub P
      → P w
      → P (Api.respond_user env node_env url (some token) route w).1
  unfolding Api.respond_user jwt_auth_guard
  Keeps-respond_user url token route w {payload} verified writes h = rw verified (
      (Keeps-respond_as (validate payload) writes url route).at (record w { reads = w.reads + 1 })
        (writes.clock_read w h))
