-- ===== src/Api/Refusals.antt =====
-- Proofs about src/common/guards/jwt-auth-guard.ts and src/common/filters/http-exception.filter.ts:
-- which requests are refused before a handler runs, and what a refusal tells.
use lexi_ledger_backend.Base.{ℕ, ◌+◌, String, false, Option, none, some, ◌≡◌, refl}
use lexi_ledger_backend.Platform.{World, Result, ok, Env, JwtPayload}
use lexi_ledger_backend.Api.Envelope
use lexi_ledger_backend.Api.Envelope.{
  Value, Method, Thrown, http, other, several, ErrorBody, thrown, catch_exception, join, status_of,
  client_message,
}
use lexi_ledger_backend.Api.Guard.{jwt_auth_guard}
use lexi_ledger_backend.Api.Routes.{PublicRoute, UserRoute, is_valid_public, is_valid}
use lexi_ledger_backend.Api

module _ (env : Env) (node_env : String) where
  -- The body of a refusal at the world `w`, where the clock is read once more.
  abbrev pub error_body : String → Thrown → World → ErrorBody
  error_body url exception w = record {
    success = false;
    status_code = status_of exception;
    timestamp = env.clock w.reads;
    path = url;
    message = client_message exception;
  }

  pub refuse_lem :
      (url : String) (exception : Thrown) (w : World)
      → Api.refuse env node_env url exception w
        ≡ (ok (Api.refusal (error_body url exception w)), record w { reads = w.reads + 1 })
  unfolding Api.refuse catch_exception
  refuse_lem url exception w = refl

  -- The reply is a refusal with the status and the message, and nothing but the count of the
  -- readings of the clock has changed.
  pub record IsRefused (status : ℕ) (message : String) (w : World)
      (outcome : Result Api.Reply × World) : Type 0 where
    pub body : ErrorBody
    pub told : outcome.0 ≡ ok (Api.refusal body)
    pub with_status : body.status_code ≡ status
    pub with_message : body.message ≡ message
    pub reads : ℕ
    pub unchanged : outcome.1 ≡ record w { reads = reads }

  refuse-IsRefused :
      (url : String) (exception : Thrown) (w : World) (n : ℕ)
      → IsRefused
          (status_of exception)
          (client_message exception)
          w
          (Api.refuse env node_env url exception (record w { reads = n }))
  refuse-IsRefused url exception w n = record {
    body = error_body url exception (record w { reads = n });
    told = rw (refuse_lem url exception (record w { reads = n })) refl;
    with_status = refl;
    with_message = refl;
    reads = n + 1;
    unchanged = rw (refuse_lem url exception (record w { reads = n })) refl;
  }

  -- The request has no token, or one that does not pass the check at the time.
  abbrev pub IsUnauthenticated : Option String → World → Type 0
  IsUnauthenticated none w = Unit
  IsUnauthenticated (some token) w = env.jwt_verify (env.clock w.reads) token ≡ none

  -- A request to any route under `JwtAuthGuard` with no token, or with one that does not pass the
  -- check at its time, is refused with 401, and nothing changes but the count of the readings of
  -- the clock.
  pub unauthenticated-IsRefused :
      (url : String) (token : Option String) (route : UserRoute) (w : World)
      → IsUnauthenticated token w
      → IsRefused 401 "Unauthorized" w (Api.respond_user env node_env url token route w)
  unfolding Api.respond_user jwt_auth_guard
  unauthenticated-IsRefused url none route w h =
      refuse-IsRefused url (http 401 (Envelope.one "Unauthorized")) w w.reads
  unauthenticated-IsRefused url (some token) route w h =
      rw h (refuse-IsRefused url (http 401 (Envelope.one "Unauthorized")) w (w.reads + 1))

  -- A request whose arguments do not pass the checks, from anyone and from a user.
  pub invalid-IsRefused :
      (url token : String) (public_route : PublicRoute) (route : UserRoute) (w : World)
      {payload : JwtPayload}
      → env.jwt_verify (env.clock w.reads) token ≡ some payload
      → is_valid_public env public_route ≡ false
      → is_valid env route ≡ false
      → IsRefused 400
          (join env.validation_messages)
          w
          (Api.respond_public env node_env url public_route w)
        × IsRefused 400
            (join env.validation_messages)
            w
            (Api.respond_user env node_env url (some token) route w)
  unfolding Api.respond_public Api.respond_user jwt_auth_guard
  invalid-IsRefused url token public_route route w verified h k =
      let refused = refuse-IsRefused url (Api.invalid_request env node_env) w in
      (rw h (refused w.reads), rw (verified, k) (refused (w.reads + 1)))
