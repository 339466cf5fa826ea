-- ===== src/Api/Shapes.antt =====
-- Proofs about the controllers under src/module: which of them return a page.
use lexi_ledger_backend.Base.{String, Bool, true, false, Option, none, some, ◌≡◌, refl}
use lexi_ledger_backend.Platform.{World, ◌>>=◌, Action, Result, ok, err, Env}
use lexi_ledger_backend.Schema.{UploadStatement}
use lexi_ledger_backend.Users
use lexi_ledger_backend.Transactions
use lexi_ledger_backend.Budgets
use lexi_ledger_backend.Statements
use lexi_ledger_backend.AuthController
use lexi_ledger_backend.AuthController.{Response, CookieChange}
use lexi_ledger_backend.Api.Envelope.{is_paginated_result, Value}
use lexi_ledger_backend.Api.Guard.{CurrentUserPayload}
use lexi_ledger_backend.Api.Routes.{PublicRoute, UserRoute, is_listing, range_of}
use lexi_ledger_backend.Api.Controllers
use lexi_ledger_backend.Api

-- The value that a handler returns, if it returns, is a page or not.
abbrev pub IsShaped : Bool → Result (Response Value) → Type 0
IsShaped listing (ok response) = is_paginated_result response.body ≡ listing
IsShaped listing (err e) = Unit

bound-IsShaped :
    {A : Type 0} (listing : Bool) (f : A → Response Value) (r : Result A) (w : World)
    → ((a : A) → is_paginated_result (f a).body ≡ listing)
    → IsShaped listing
        (elim r as (λ _. Result (Response Value) × World) [
          | ok a ↦ (ok (f a), w)
          | err e ↦ (err e, w)
        ]).0
bound-IsShaped listing f (ok a) w h = h a
bound-IsShaped listing f (err e) w h = tt

returned-IsShaped :
    {A : Type 0} (listing : Bool) (value : A → Value) (m : Action A) (w : World)
    → ((a : A) → is_paginated_result (value a) ≡ listing)
    → IsShaped listing (Controllers.returned value m w).0
returned-IsShaped listing value m w h = bound-IsShaped listing _ (m w).0 (m w).1 h

with_value-IsShaped :
    {A : Type 0} (value : A → Value) (m : Action (Response A)) (w : World)
    → ((a : A) → is_paginated_result (value a) ≡ false)
    → IsShaped false (Api.with_value value m w).0
with_value-IsShaped value m w h =
    bound-IsShaped false _ (m w).0 (m w).1 (λ response. h response.body)

statement_or_null_shape :
    (o : Option UploadStatement) → is_paginated_result (Controllers.statement_or_null o) ≡ false
statement_or_null_shape none = refl
statement_or_null_shape (some s) = refl

module _ (env : Env) (node_env : String) where
  pub handled_public-IsShaped :
      (route : PublicRoute) (w : World) → IsShaped false (Api.handle_public env node_env route w).0
  unfolding Api.handle_public
  handled_public-IsShaped (PublicRoute.register name email password) w =
      with_value-IsShaped _ (AuthController.register env node_env name email password) w (λ a. refl)
  handled_public-IsShaped (PublicRoute.login req email password) w =
      with_value-IsShaped _ (AuthController.login env node_env req email password) w (λ a. refl)
  handled_public-IsShaped (PublicRoute.refresh req) w =
      with_value-IsShaped _ (AuthController.refresh env node_env req) w (λ a. refl)
  handled_public-IsShaped (PublicRoute.logout req) w =
      with_value-IsShaped _ (AuthController.logout env node_env req) w (λ a. refl)
  handled_public-IsShaped (PublicRoute.forgot_password email) w =
      with_value-IsShaped _ (AuthController.forgot_password env node_env email) w (λ a. refl)
  handled_public-IsShaped (PublicRoute.reset_password token new_password) w =
      with_value-IsShaped _ (AuthController.reset_password env node_env token new_password) w
        (λ a. refl)
  handled_public-IsShaped (PublicRoute.verify_email token) w =
      with_value-IsShaped _ (AuthController.verify_email env node_env token) w (λ a. refl)
  handled_public-IsShaped (PublicRoute.resend_verification email) w =
      with_value-IsShaped _ (AuthController.resend_verification env node_env email) w (λ a. refl)

  pub handled-IsShaped :
      (current : CurrentUserPayload) (route : UserRoute) (w : World)
      → IsShaped (is_listing route) (Api.handle_user env node_env current route w).0
  unfolding Api.handle_user Controllers.get_me Controllers.update_name Controllers.get_overview
      Controllers.get_corrections Controllers.correct_transaction Controllers.list_transactions
      Controllers.find_budgets Controllers.set_budget Controllers.remove_budget
      Controllers.get_statement_transactions Controllers.get_statement_stats
      Controllers.list_statements Controllers.get_by_id Controllers.upload
  handled-IsShaped current (UserRoute.logout_all) w =
      with_value-IsShaped _ (AuthController.logout_all env node_env current.user_id) w (λ a. refl)
  handled-IsShaped current (UserRoute.get_me) w =
      returned-IsShaped false _ (Users.get_me env current.user_id) w (λ a. refl)
  handled-IsShaped current (UserRoute.update_name name) w =
      returned-IsShaped false _ (Users.update_name env current.user_id name) w (λ a. refl)
  handled-IsShaped current (UserRoute.get_overview from to) w =
      returned-IsShaped false _
        (range_of env from to >>= Transactions.get_overview env current.user_id) w (λ a. refl)
  handled-IsShaped current (UserRoute.list_transactions query from to) w =
      returned-IsShaped true _
        (range_of env from to >>= Transactions.find_all env current.user_id query none) w
        (λ a. refl)
  handled-IsShaped current (UserRoute.correct_transaction id category) w =
      returned-IsShaped false _ (Transactions.correct env current.user_id id category) w (λ a. refl)
  handled-IsShaped current (UserRoute.get_corrections id) w =
      returned-IsShaped false _ (Transactions.get_corrections env id current.user_id) w (λ a. refl)
  handled-IsShaped current (UserRoute.find_budgets month) w =
      returned-IsShaped false _ (Budgets.find_all env current.user_id month) w (λ a. refl)
  handled-IsShaped current (UserRoute.set_budget category limit) w =
      returned-IsShaped false _ (Budgets.set env current.user_id category limit) w (λ a. refl)
  handled-IsShaped current (UserRoute.remove_budget category) w =
      returned-IsShaped false _ (Budgets.remove env current.user_id category) w (λ a. refl)
  handled-IsShaped current (UserRoute.upload file) w =
      returned-IsShaped false _ (Statements.upload env current.user_id file) w (λ a. refl)
  handled-IsShaped current (UserRoute.list_statements query) w =
      returned-IsShaped true _ (Statements.find_all env current.user_id query) w (λ a. refl)
  handled-IsShaped current (UserRoute.get_statement_stats id) w =
      returned-IsShaped false _ (Statements.get_stats env id current.user_id) w (λ a. refl)
  handled-IsShaped current (UserRoute.get_statement_transactions id query) w =
      returned-IsShaped true _ (Statements.get_transactions env id current.user_id query) w
        (λ a. refl)
  handled-IsShaped current (UserRoute.get_statement id) w =
      returned-IsShaped false _ (Statements.get_by_id env id current.user_id) w
        statement_or_null_shape
