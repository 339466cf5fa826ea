-- ===== src/Api/Privacy/Handlers.antt =====
-- Proofs about the routes under `JwtAuthGuard` of src/module: whose rows an answer discloses.
use lexi_ledger_backend.Base.{
  ℕ, ◌+◌, String, true, Option, none, some, ◌≡◌, refl, ◌∙◌, Bool-cases, inl, inr,
}
use lexi_ledger_backend.Schema.{UploadStatement}
use lexi_ledger_backend.Platform.{World, Action, Result, ok, err, Env, JwtPayload, ◌>>=◌}
use lexi_ledger_backend.Transactions
use lexi_ledger_backend.Statements
use lexi_ledger_backend.AuthController
use lexi_ledger_backend.AuthController.{Response, CookieChange}
use lexi_ledger_backend.Api.Envelope
use lexi_ledger_backend.Api.Envelope.{Value, Method, ApiResponse, ErrorBody, Thrown, thrown}
use lexi_ledger_backend.Api.Guard.{CurrentUserPayload, jwt_auth_guard, validate}
use lexi_ledger_backend.Api.Routes.{UserRoute, is_valid, method_of, range_of}
use lexi_ledger_backend.Api.Controllers
use lexi_ledger_backend.Api.Refusals.{refuse_lem}
use lexi_ledger_backend.Api.Privacy.{owned}
use lexi_ledger_backend.Api.Privacy.Returns.{
  Holds, Returns, Returns-pure, Returns-bind, Returns-any,
}
use lexi_ledger_backend.Api.Privacy.Rows.{AtMost}
use lexi_ledger_backend.Api.Privacy.Services.{
  own_statement, Returns-get_me, Returns-update_name, Returns-find_all, Returns-correct,
  Returns-get_corrections,
}
use lexi_ledger_backend.Api.Privacy.Stores.{
  Returns-reports, Returns-set, Returns-remove, Returns-statement, Returns-statements,
  Returns-statement_transactions, Returns-upload,
}
use lexi_ledger_backend.Api

-- An outcome that discloses rows of the user alone: the data of a success, and any refusal, which
-- has none.
pub data IsPrivate (user_id : ℕ) : Result Api.Reply → Type 0 where
  disclosed :
      (response : ApiResponse) (cookie : CookieChange)
      → owned user_id response.body ≡ true
      → IsPrivate user_id (ok (Api.answer response cookie))
  withheld : (body : ErrorBody) → IsPrivate user_id (ok (Api.refusal body))

module _ (env : Env) (node_env : String) (current : CurrentUserPayload) where
  abbrev IsOwn : Response Value → Type 0
  IsOwn response = owned current.user_id response.body ≡ true

  Returns-returned :
      {A : Type 0} {P : A → Type 0} (value : A → Value) (m : Action A)
      → Returns P m
      → ((a : A) → P a → owned current.user_id (value a) ≡ true)
      → Returns IsOwn (Controllers.returned value m)
  Returns-returned value m h k = Returns-bind m _ h (λ a p. Returns-pure _ (k a p))

  unasked :
      {A : Type 0} (value : A → Value) (m : Action A)
      → ((a : A) → owned current.user_id (value a) ≡ true)
      → Returns IsOwn (Controllers.returned value m)
  unasked {A = A} value m k = record { at = λ w. any_value (m w).0 (m w).1 }
    where
      any_value :
          (r : Result A) (w : World)
          → Holds IsOwn
              (elim r as (λ _. Result (Response Value) × World) [
                | ok a ↦ (ok (record { body = value a; cookie = AuthController.keep }), w)
                | err e ↦ (err e, w)
              ]).0
      any_value (ok a) w = k a
      any_value (err e) w = tt

  statement_or_null_own :
      (o : Option UploadStatement)
      → AtMost (own_statement env current.user_id) o
      → owned current.user_id (Controllers.statement_or_null o) ≡ true
  statement_or_null_own none h = refl
  statement_or_null_own (some s) h = h

  logged_out :
      Returns IsOwn
        (Api.with_value Value.message (AuthController.logout_all env node_env current.user_id))
  logged_out = record {
    at = λ w. any_message (AuthController.logout_all env node_env current.user_id w).0 _;
  }
    where
      any_message :
          (r : Result (Response String)) (w : World)
          → Holds IsOwn
              (elim r as (λ _. Result (Response Value) × World) [
                | ok response ↦ (
                  ok (record { body = Value.message response.body; cookie = response.cookie }),
                  w,
                )
                | err e ↦ (err e, w)
              ]).0
      any_message (ok response) w = refl
      any_message (err e) w = tt

  Returns-handle : (route : UserRoute) → Returns IsOwn (Api.handle_user env node_env current route)
  unfolding Api.handle_user Controllers.get_me Controllers.update_name Controllers.get_overview
      Controllers.get_corrections Controllers.correct_transaction Controllers.list_transactions
      Controllers.find_budgets Controllers.set_budget Controllers.remove_budget
      Controllers.get_statement_transactions Controllers.get_statement_stats
      Controllers.list_statements Controllers.get_by_id Controllers.upload
  Returns-handle (UserRoute.logout_all) = logged_out
  Returns-handle (UserRoute.get_me) =
      Returns-returned Value.user _ (Returns-get_me env current.user_id) (λ a p. p)
  Returns-handle (UserRoute.update_name name) =
      Returns-returned Value.user _ (Returns-update_name env current.user_id name) (λ a p. p)
  Returns-handle (UserRoute.get_overview from to) =
      unasked Value.overview
        (range_of env from to >>= Transactions.get_overview env current.user_id) (λ a. refl)
  Returns-handle (UserRoute.list_transactions query from to) =
      Returns-returned (Envelope.paginate Value.transactions) _
        (Returns-bind (range_of env from to) _ (Returns-any _)
          (λ range _. Returns-find_all env current.user_id query none range))
        (λ a p. p)
  Returns-handle (UserRoute.correct_transaction id category) =
      Returns-returned Value.transaction _ (Returns-correct env current.user_id id category)
        (λ a p. p)
  Returns-handle (UserRoute.get_corrections id) =
      Returns-returned Value.corrections _ (Returns-get_corrections env current.user_id id)
        (λ a p. p)
  Returns-handle (UserRoute.find_budgets month) =
      Returns-returned Value.budgets _ (Returns-reports env current.user_id month) (λ a p. p)
  Returns-handle (UserRoute.set_budget category limit) =
      Returns-returned Value.budget _ (Returns-set env current.user_id category limit) (λ a p. p)
  Returns-handle (UserRoute.remove_budget category) =
      Returns-returned Value.budget _ (Returns-remove env current.user_id category) (λ a p. p)
  Returns-handle (UserRoute.upload file) =
      Returns-returned Value.statement _ (Returns-upload env current.user_id file) (λ a p. p)
  Returns-handle (UserRoute.list_statements query) =
      Returns-returned (Envelope.paginate Value.statements) _
        (Returns-statements env current.user_id query) (λ a p. p)
  Returns-handle (UserRoute.get_statement id) =
      Returns-returned Controllers.statement_or_null _ (Returns-statement env current.user_id id)
        statement_or_null_own
  Returns-handle (UserRoute.get_statement_stats id) =
      unasked Value.stats (Statements.get_stats env id current.user_id) (λ a. refl)
  Returns-handle (UserRoute.get_statement_transactions id query) =
      Returns-returned (Envelope.paginate Value.transactions) _
        (Returns-statement_transactions env current.user_id id query) (λ a p. p)

  refuse-IsPrivate :
      (url : String) (exception : Thrown) (w : World)
      → IsPrivate current.user_id (Api.refuse env node_env url exception w).0
  refuse-IsPrivate url exception w = rw (refuse_lem env node_env url exception w) (withheld _)

  intercept_own :
      (method : Method) (value : Value)
      → owned current.user_id (Envelope.intercept none method value).body
        ≡ owned current.user_id value
  unfolding Envelope.intercept
  intercept_own method (Value.paginated rows meta) = refl
  intercept_own method (Value.null) = refl
  intercept_own method (Value.message a) = refl
  intercept_own method (Value.registered a) = refl
  intercept_own method (Value.logged_in a) = refl
  intercept_own method (Value.refreshed a) = refl
  intercept_own method (Value.user a) = refl
  intercept_own method (Value.overview a) = refl
  intercept_own method (Value.transaction a) = refl
  intercept_own method (Value.transactions a) = refl
  intercept_own method (Value.corrections a) = refl
  intercept_own method (Value.budget a) = refl
  intercept_own method (Value.budgets a) = refl
  intercept_own method (Value.statement a) = refl
  intercept_own method (Value.statements a) = refl
  intercept_own method (Value.stats a) = refl

  replied-IsPrivate :
      (url : String) (method : Method) (r : Result (Response Value)) (w : World)
      → Holds IsOwn r
      → IsPrivate current.user_id (Api.replied env node_env url method r w).0
  replied-IsPrivate url method (ok response) w h =
      disclosed _ response.cookie (intercept_own method response.body ∙ h)
  replied-IsPrivate url method (err e) w h = refuse-IsPrivate url (thrown e) w

  pub respond_as-IsPrivate :
      (url : String) (route : UserRoute) (w : World)
      → IsPrivate current.user_id (Api.respond_as env node_env url route (ok current) w).0
  unfolding Api.run_handler
  respond_as-IsPrivate url route w = elim (Bool-cases (is_valid env route)) [
    | inl e ↦
        let (r, w') = Api.handle_user env node_env current route w in
        rw e (replied-IsPrivate url (method_of route) r w' ((Returns-handle route).at w))
    | inr e ↦ rw e (refuse-IsPrivate url _ w)
  ]

module _ (env : Env) (node_env : String) where
  -- The answer to a request to any route under `JwtAuthGuard`, with a token that passes the check at
  -- its time, holds rows of the user whom the token names and of no other.
  pub answers-IsPrivate :
      (url token : String) (route : UserRoute) (w : World) {payload : JwtPayload}
      → env.jwt_verify (env.clock w.reads) token ≡ some payload
      → IsPrivate payload.sub (Api.respond_user env node_env url (some token) route w).0
  unfolding Api.respond_user jwt_auth_guard
  answers-IsPrivate url token route w {payload} h = rw h (
      respond_as-IsPrivate env node_env (validate payload) url route
        (record w { reads = w.reads + 1 }))
