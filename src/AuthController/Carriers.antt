-- ===== src/AuthController/Carriers.antt =====
-- Proofs about the carriers of the refresh token in src/module/auth/auth.controller.ts.
use lexi_ledger_backend.Base.{ℕ, String, ◌≡◌, refl, true, Option, none, some, arith}
use lexi_ledger_backend.Users.{SafeUser}
use lexi_ledger_backend.Platform.{World, ok, err, Env, bad_request}
use lexi_ledger_backend.AuthService
use lexi_ledger_backend.AuthService.{Refreshed, success}
use lexi_ledger_backend.AuthController.{
  ClientType, web, mobile, client_type_of, Cookie, CookieChange, keep, set_cookie, Response,
  Request, RefreshBody, LoginBody, refresh, refresh_as, refresh_token, refresh_reply, login,
  login_as, login_reply, truthy, raw_token_of, invalid_client_type, logout, logout_as,
}

-- A web client has the token in a cookie that scripts cannot read, and not in the body; a mobile
-- client has it in the body, and the cookie is left alone.
abbrev pub IsDelivered : ClientType → String → Option String → CookieChange → Type 0
IsDelivered web token in_body change =
    (in_body ≡ none)
    × ((c : Cookie) × (change ≡ set_cookie c) × (c.value ≡ token) × (c.http_only ≡ true))
IsDelivered mobile token in_body change = (in_body ≡ some token) × (change ≡ keep)

module _ (env : Env) (node_env : String) where
  login_delivers_as :
      (client : ClientType) (email password : String) (w : World) {user : SafeUser}
      {access token : String} {t : ℕ} {w' : World}
      → AuthService.login env email password w ≡ (ok (success user access token t), w')
      → (reply : Response LoginBody) × (login_as env node_env (some client) email password w
          ≡ (ok reply, w'))
        × IsDelivered client token reply.body.refresh_token reply.cookie
  unfolding login_as
  login_delivers_as web email password w {user} {access} {token} {t} e = (
    login_reply env node_env web (success user access token t),
    ground (arith, e),
    (refl, (_, refl, refl, refl)),
  )
  login_delivers_as mobile email password w {user} {access} {token} {t} e = (
    login_reply env node_env mobile (success user access token t),
    ground (arith, e),
    (refl, refl),
  )

  -- A login that succeeds hands the refresh token over as the client's type says: to a web client
  -- in a cookie that scripts cannot read and never in the body, to a mobile client in the body.
  pub login_delivers :
      (req : Request) (client : ClientType) (email password : String) (w : World) {user : SafeUser}
      {access token : String} {t : ℕ} {w' : World}
      → client_type_of req.client_type ≡ some client
      → AuthService.login env email password w ≡ (ok (success user access token t), w')
      → (reply : Response LoginBody) × (login env node_env req email password w ≡ (ok reply, w'))
        × IsDelivered client token reply.body.refresh_token reply.cookie
  unfolding login
  login_delivers req client email password w known e =
      rw known (login_delivers_as client email password w e)

  refresh_delivers_to :
      (client : ClientType) (raw : String) (w : World) {result : Refreshed} {w' : World}
      → AuthService.refresh env raw w ≡ (ok result, w')
      → (reply : Response RefreshBody) × (refresh_token env node_env client (some raw) w
          ≡ (ok reply, w'))
        × IsDelivered client result.refresh_token reply.body.refresh_token reply.cookie
  unfolding refresh_token
  refresh_delivers_to web raw w {result} e =
      (refresh_reply env node_env web result, ground (arith, e), (refl, (_, refl, refl, refl)))
  refresh_delivers_to mobile raw w {result} e =
      (refresh_reply env node_env mobile result, ground (arith, e), (refl, refl))

  -- A refresh takes the old token from where the client's type says, and hands the new one over
  -- in the same way: to a web client in a cookie that scripts cannot read and never in the body,
  -- to a mobile client in the body.
  pub refresh_delivers :
      (req : Request) (client : ClientType) (raw : String) (w : World) {result : Refreshed}
      {w' : World}
      → client_type_of req.client_type ≡ some client
      → truthy (raw_token_of client req) ≡ some raw
      → AuthService.refresh env raw w ≡ (ok result, w')
      → (reply : Response RefreshBody) × (refresh env node_env req w ≡ (ok reply, w'))
        × IsDelivered client result.refresh_token reply.body.refresh_token reply.cookie
  unfolding refresh refresh_as
  refresh_delivers req client raw w known given e =
      rw (known, given) (refresh_delivers_to client raw w e)

  -- A request of no known client type is refused by the handlers of login, refresh and logout
  -- alike, and nothing changes.
  pub unknown_client_refused :
      (req : Request) (email password : String) (w : World)
      → client_type_of req.client_type ≡ none
      → (login env node_env req email password w ≡ (err (bad_request invalid_client_type), w))
        × (refresh env node_env req w ≡ (err (bad_request invalid_client_type), w))
        × (logout env node_env req w ≡ (err (bad_request invalid_client_type), w))
  unfolding login login_as refresh refresh_as logout logout_as
  unknown_client_refused req email password w h = rw h (refl, refl, refl)
