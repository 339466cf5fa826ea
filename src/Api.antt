-- ===== src/Api.antt =====
-- The HTTP interface: a request passes the guard of its route and the validation, its handler runs,
-- and the interceptor or the exception filter makes the reply.
pub mod Envelope
pub mod Guard
pub mod Routes
pub mod Controllers
pub mod Refusals
pub mod Keeping
pub mod Isolation
pub mod Shapes
pub mod Ranges
pub mod Replies
pub mod Sessions
pub mod Privacy
use lexi_ledger_backend.Base.{ℕ, String, Bool, true, false, Option, none, some, if◌then◌else◌}
use lexi_ledger_backend.Platform.{World, Action, Result, ok, err, pure, ◌>>=◌, Env}
use lexi_ledger_backend.AuthController
use lexi_ledger_backend.AuthController.{Response, CookieChange, kept}
use lexi_ledger_backend.Api.Envelope
use lexi_ledger_backend.Api.Envelope.{
  Value, Method, post, ApiResponse, intercept, Thrown, http, several, ErrorBody, thrown,
  catch_exception,
}
use lexi_ledger_backend.Api.Guard.{CurrentUserPayload, jwt_auth_guard}
use lexi_ledger_backend.Api.Routes
use lexi_ledger_backend.Api.Routes.{PublicRoute, UserRoute, method_of, is_valid_public, is_valid}
use lexi_ledger_backend.Api.Controllers

-- What goes to the client: `success: true` with the cookie, or `success: false`.
pub data Reply : Type 0 where
  answer : ApiResponse → CookieChange → Reply
  refusal : ErrorBody → Reply

-- An action with its exception as a value.
abbrev pub attempt : {A : Type 0} → Action A → Action (Result A)
attempt m w = (ok (m w).0, (m w).1)

abbrev pub with_value : {A : Type 0} → (A → Value) → Action (Response A) → Action (Response Value)
with_value value m = do
  response ← m
  pure (record { body = value response.body; cookie = response.cookie })

module _ (env : Env) (node_env : String) where
  -- The handler of each route.
  pub handle_public : PublicRoute → Action (Response Value)
  handle_public (PublicRoute.register name email password) =
      with_value Value.registered (AuthController.register env node_env name email password)
  handle_public (PublicRoute.login req email password) =
      with_value Value.logged_in (AuthController.login env node_env req email password)
  handle_public (PublicRoute.refresh req) =
      with_value Value.refreshed (AuthController.refresh env node_env req)
  handle_public (PublicRoute.logout req) =
      with_value Value.message (AuthController.logout env node_env req)
  handle_public (PublicRoute.forgot_password email) =
      with_value Value.message (AuthController.forgot_password env node_env email)
  handle_public (PublicRoute.reset_password token new_password) =
      with_value Value.message (AuthController.reset_password env node_env token new_password)
  handle_public (PublicRoute.verify_email token) =
      with_value Value.message (AuthController.verify_email env node_env token)
  handle_public (PublicRoute.resend_verification email) =
      with_value Value.message (AuthController.resend_verification env node_env email)

  pub handle_user : CurrentUserPayload → UserRoute → Action (Response Value)
  handle_user current UserRoute.logout_all =
      with_value Value.message (AuthController.logout_all env node_env current.user_id)
  handle_user current UserRoute.get_me = Controllers.get_me env current
  handle_user current (UserRoute.update_name name) = Controllers.update_name env current name
  handle_user current (UserRoute.get_overview from to) =
      Controllers.get_overview env current from to
  handle_user current (UserRoute.list_transactions query from to) =
      Controllers.list_transactions env current query from to
  handle_user current (UserRoute.correct_transaction id category) =
      Controllers.correct_transaction env current id category
  handle_user current (UserRoute.get_corrections id) = Controllers.get_corrections env current id
  handle_user current (UserRoute.find_budgets month) = Controllers.find_budgets env current month
  handle_user current (UserRoute.set_budget category monthly_limit) =
      Controllers.set_budget env current category monthly_limit
  handle_user current (UserRoute.remove_budget category) =
      Controllers.remove_budget env current category
  handle_user current (UserRoute.upload file) = Controllers.upload env current file
  handle_user current (UserRoute.list_statements query) =
      Controllers.list_statements env current query
  handle_user current (UserRoute.get_statement id) = Controllers.get_by_id env current id
  handle_user current (UserRoute.get_statement_stats id) =
      Controllers.get_statement_stats env current id
  handle_user current (UserRoute.get_statement_transactions id query) =
      Controllers.get_statement_transactions env current id query

  -- The exception filter and the interceptor.
  pub refuse : (url : String) → Thrown → Action Reply
  refuse url exception = do body ← catch_exception env exception url; pure (refusal body)

  abbrev pub replied : (url : String) → Method → Result (Response Value) → Action Reply
  replied url method (ok response) =
      pure (answer (intercept none method response.body) response.cookie)
  replied url method (err e) = refuse url (thrown e)

  pub run_handler : (url : String) → Method → Action (Response Value) → Action Reply
  run_handler url method handler = do result ← attempt handler; replied url method result

  -- What is thrown where the arguments do not fit.
  abbrev pub invalid_request : Thrown
  invalid_request = http 400 (several env.validation_messages)

  -- A request that no guard stands before.
  pub respond_public : (url : String) → PublicRoute → Action Reply
  respond_public url route =
      if is_valid_public env route
      then run_handler url post (handle_public route)
      else refuse url invalid_request

  -- A request to a route under `JwtAuthGuard`: the guard runs before the validation.
  abbrev pub respond_as : (url : String) → UserRoute → Result CurrentUserPayload → Action Reply
  respond_as url route (err e) = refuse url (thrown e)
  respond_as url route (ok current) =
      if is_valid env route
      then run_handler url (method_of route) (handle_user current route)
      else refuse url invalid_request

  pub respond_user : (url : String) (token : Option String) → UserRoute → Action Reply
  respond_user url token route = do
    found ← attempt (jwt_auth_guard env token)
    respond_as url route found
