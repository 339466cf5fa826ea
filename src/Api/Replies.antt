-- ===== src/Api/Replies.antt =====
-- Proofs about src/common/filters/http-exception.filter.ts and
-- src/common/interceptors/transform.interceptor.ts: what a client is told, however a request ends.
use lexi_ledger_backend.Base.{
  ℕ, String, Bool, true, false, Option, none, ◌≡◌, refl, ◌∙◌, is_some, ◌⊎◌, inl, inr, ◌==◌, ◌||◌,
  Bool-cases,
}
use lexi_ledger_backend.Platform.{
  World, Action, Result, ok, err, Exception, unauthorized, not_found, conflict, bad_request, error,
  unrecoverable, prisma, Env,
}
use lexi_ledger_backend.AuthController.{Response, CookieChange}
use lexi_ledger_backend.Api.Envelope
use lexi_ledger_backend.Api.Envelope.{
  is_paginated_result, default_code, Value, Method, post, ApiResponse, Thrown, http, other,
  ErrorBody, thrown,
}
use lexi_ledger_backend.Api.Guard.{CurrentUserPayload, jwt_auth_guard}
use lexi_ledger_backend.Api.Routes.{
  PublicRoute, UserRoute, is_valid_public, is_valid, method_of, is_listing,
}
use lexi_ledger_backend.Api.Shapes.{IsShaped, handled_public-IsShaped, handled-IsShaped}
use lexi_ledger_backend.Api.Refusals.{error_body, refuse_lem}
use lexi_ledger_backend.Api

-- The statuses that tell a client what is wrong with the request.
abbrev pub is_client_error : ℕ → Bool
is_client_error status = status == 400 || status == 401 || status == 404 || status == 409

-- A refusal blames the request, or says no more than that there was an error.
abbrev pub IsDiscreet : ErrorBody → Type 0
IsDiscreet body =
    (is_client_error body.status_code ≡ true)
    ⊎ ((body.status_code ≡ 500) × (body.message ≡ "Internal server error"))

-- The outcome of a request is a reply: a success with its code, which has `meta` exactly for a
-- listing, or a refusal that is discreet.
pub data IsReply (code : ℕ) (listing : Bool) : Result Api.Reply → Type 0 where
  answered :
      (response : ApiResponse) (cookie : CookieChange)
      → response.success ≡ true
      → response.status_code ≡ code
      → is_some response.meta ≡ listing
      → IsReply code listing (ok (Api.answer response cookie))
  refused :
      (body : ErrorBody)
      → body.success ≡ false
      → IsDiscreet body
      → IsReply code listing (ok (Api.refusal body))

module _ (env : Env) (node_env : String) where
  thrown-IsDiscreet :
      (url : String) (e : Exception) (w : World)
      → IsDiscreet (error_body env node_env url (thrown e) w)
  thrown-IsDiscreet url (unauthorized m) w = inl refl
  thrown-IsDiscreet url (not_found m) w = inl refl
  thrown-IsDiscreet url (conflict m) w = inl refl
  thrown-IsDiscreet url (bad_request m) w = inl refl
  thrown-IsDiscreet url (error m) w = inr (refl, refl)
  thrown-IsDiscreet url (unrecoverable m) w = inr (refl, refl)
  thrown-IsDiscreet url (prisma code) w = inr (refl, refl)

  refuse-IsReply :
      (code : ℕ) (listing : Bool) (url : String) (exception : Thrown) (w : World)
      → IsDiscreet (error_body env node_env url exception w)
      → IsReply code listing (Api.refuse env node_env url exception w).0
  refuse-IsReply code listing url exception w h =
      rw (refuse_lem env node_env url exception w)
        (refused (error_body env node_env url exception w) refl h)

  intercept_lem :
      (method : Method) (value : Value)
      → let response = Envelope.intercept none method value in
        (response.success ≡ true)
        × (response.status_code ≡ default_code method)
        × (is_some response.meta ≡ is_paginated_result value)
  unfolding Envelope.intercept
  intercept_lem method (Value.paginated rows meta) = (refl, refl, refl)
  intercept_lem method (Value.null) = (refl, refl, refl)
  intercept_lem method (Value.message m) = (refl, refl, refl)
  intercept_lem method (Value.registered m) = (refl, refl, refl)
  intercept_lem method (Value.logged_in m) = (refl, refl, refl)
  intercept_lem method (Value.refreshed m) = (refl, refl, refl)
  intercept_lem method (Value.user m) = (refl, refl, refl)
  intercept_lem method (Value.overview m) = (refl, refl, refl)
  intercept_lem method (Value.transaction m) = (refl, refl, refl)
  intercept_lem method (Value.transactions m) = (refl, refl, refl)
  intercept_lem method (Value.corrections m) = (refl, refl, refl)
  intercept_lem method (Value.budget m) = (refl, refl, refl)
  intercept_lem method (Value.budgets m) = (refl, refl, refl)
  intercept_lem method (Value.statement m) = (refl, refl, refl)
  intercept_lem method (Value.statements m) = (refl, refl, refl)
  intercept_lem method (Value.stats m) = (refl, refl, refl)

  replied-IsReply :
      (listing : Bool) (url : String) (method : Method) (r : Result (Response Value)) (w : World)
      → IsShaped listing r
      → IsReply (default_code method) listing (Api.replied env node_env url method r w).0
  replied-IsReply listing url method (ok response) w shaped =
      let (success, code, meta) = intercept_lem method response.body in
      answered _ response.cookie success code (meta ∙ shaped)
  replied-IsReply listing url method (err e) w shaped =
      refuse-IsReply (default_code method) listing url (thrown e) w (thrown-IsDiscreet url e w)

  run_handler-IsReply :
      (listing : Bool) (url : String) (method : Method) (handler : Action (Response Value))
      (w : World)
      → IsShaped listing (handler w).0
      → IsReply (default_code method) listing (Api.run_handler env node_env url method handler w).0
  unfolding Api.run_handler
  run_handler-IsReply listing url method handler w shaped =
      replied-IsReply listing url method (handler w).0 (handler w).1 shaped

  -- A request to any public route ends with a reply of the code 201 that is no page, or with a
  -- refusal that blames the request or tells no more than that there was an error.
  pub respond_public-IsReply :
      (url : String) (route : PublicRoute) (w : World)
      → IsReply 201 false (Api.respond_public env node_env url route w).0
  unfolding Api.respond_public
  respond_public-IsReply url route w = elim (Bool-cases (is_valid_public env route)) [
    | inl e ↦ rw e (
        run_handler-IsReply false url post (Api.handle_public env node_env route) w
          (handled_public-IsShaped env node_env route w))
    | inr e ↦ rw e (refuse-IsReply 201 false url (Api.invalid_request env node_env) w (inl refl))
  ]

  respond_as-IsReply :
      (url : String) (route : UserRoute) (r : Result CurrentUserPayload) (w : World)
      → IsReply
          (default_code (method_of route))
          (is_listing route)
          (Api.respond_as env node_env url route r w).0
  respond_as-IsReply url route (err e) w =
      refuse-IsReply _ _ url (thrown e) w (thrown-IsDiscreet url e w)
  respond_as-IsReply url route (ok current) w = elim (Bool-cases (is_valid env route)) [
    | inl e ↦ rw e (
        run_handler-IsReply (is_listing route) url (method_of route)
          (Api.handle_user env node_env current route) w
          (handled-IsShaped env node_env current route w))
    | inr e ↦ rw e (refuse-IsReply _ _ url (Api.invalid_request env node_env) w (inl refl))
  ]

  -- A request to any route under `JwtAuthGuard` ends with a reply: a success with the code of its
  -- method, which has `meta` exactly if the route is a listing, or a refusal that blames the
  -- request by its status or else, with 500, says no more than that there was an error.
  pub respond_user-IsReply :
      (url : String) (token : Option String) (route : UserRoute) (w : World)
      → IsReply
          (default_code (method_of route))
          (is_listing route)
          (Api.respond_user env node_env url token route w).0
  unfolding Api.respond_user
  respond_user-IsReply url token route w =
      let (r, w') = jwt_auth_guard env token w in respond_as-IsReply url route r w'
