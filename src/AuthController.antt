-- ===== src/AuthController.antt =====
-- src/module/auth/auth.controller.ts: how a web and a mobile client carry the refresh token. A web
-- client has it in a cookie that scripts cannot read, a mobile client in the body.
pub mod Carriers
use lexi_ledger_backend.Base.{
  ℕ, String, Bool, true, false, Option, none, some, if◌then◌else◌, is_some, str_eq,
}
use lexi_ledger_backend.Platform.{
  World, Action, pure, throw, ◌>>=◌, ◌>>◌, unauthorized, bad_request, Env,
}
use lexi_ledger_backend.Users.{SafeUser}
use lexi_ledger_backend.AuthService
use lexi_ledger_backend.AuthService.{
  LoginResult, email_not_verified, success, Refreshed, Registered, invalid_refresh_token,
}

pub data ClientType : Type 0 where
  web mobile : ClientType

-- `isClientType` on the header `x-client-type`, with the client type that it finds.
abbrev pub client_type_of : Option String → Option ClientType
client_type_of none = none
client_type_of (some value) =
    if str_eq value "web" then some web else if str_eq value "mobile" then some mobile else none

-- `sameSite`
pub data SameSite : Type 0 where
  none_site strict_site : SameSite

pub record Cookie : Type 0 where
  pub value : String
  pub http_only : Bool
  pub secure : Bool
  pub same_site : SameSite
  pub expires : ℕ

-- What a response does to the cookie `refreshToken`.
pub data CookieChange : Type 0 where
  keep clear : CookieChange
  set_cookie : Cookie → CookieChange

pub record Response (Body : Type 0) : Type 0 where
  pub body : Body
  pub cookie : CookieChange

-- What the handlers read of a request: the header, `dto.refreshToken`, `req.cookies?.refreshToken`.
pub record Request : Type 0 where
  pub client_type : Option String
  pub body_token : Option String
  pub cookie_token : Option String

pub record RefreshBody : Type 0 where
  pub access_token : String
  pub refresh_token : Option String
  pub refresh_token_expires_at : Option ℕ

pub data LoginStatus : Type 0 where
  success_status email_not_verified_status : LoginStatus

pub record LoginBody : Type 0 where
  pub status : LoginStatus
  pub user : Option SafeUser
  pub access_token : Option String
  pub refresh_token : Option String
  pub refresh_token_expires_at : Option ℕ

abbrev pub invalid_client_type : String
invalid_client_type = "Invalid client type"

abbrev pub logout_success : String
logout_success = "Logout successful"

abbrev pub logout_all_success : String
logout_all_success = "Logout all successful"

-- A token as a condition reads it: the empty text counts as none.
abbrev pub truthy : Option String → Option String
truthy none = none
truthy (some t) = if str_eq t "" then none else some t

-- `clientType === ClientType.MOBILE ? dto.refreshToken : req.cookies?.refreshToken`
abbrev pub raw_token_of : ClientType → Request → Option String
raw_token_of mobile req = req.body_token
raw_token_of web req = req.cookie_token

-- `setRefreshTokenCookie`
abbrev pub refresh_token_cookie : (node_env refresh_token : String) (expires_at : ℕ) → CookieChange
refresh_token_cookie node_env refresh_token expires_at =
    let is_production = str_eq node_env "production" in
    set_cookie (record {
      value = refresh_token;
      http_only = true;
      secure = is_production;
      same_site = if is_production then none_site else strict_site;
      expires = expires_at;
    })

module _ (env : Env) (node_env : String) where
  -- The handlers that hand the dto to the service.
  abbrev pub kept : {Body : Type 0} → Body → Response Body
  kept body = record { body = body; cookie = keep }

  pub resend_verification : String → Action (Response String)
  resend_verification email = do
    reply ← AuthService.resend_verification_email env email
    pure (kept reply)

  pub verify_email : String → Action (Response String)
  verify_email token = do reply ← AuthService.verify_email env token; pure (kept reply)

  pub reset_password : (token new_password : String) → Action (Response String)
  reset_password token new_password = do
    reply ← AuthService.reset_password env token new_password
    pure (kept reply)

  pub forgot_password : String → Action (Response String)
  forgot_password email = do reply ← AuthService.forgot_password env email; pure (kept reply)

  pub register : (name email password : String) → Action (Response Registered)
  register name email password = do
    reply ← AuthService.register env name email password
    pure (kept reply)

  unfoldable pub logout_all : ℕ → Action (Response String)
  logout_all user_id = do
    AuthService.logout_all env user_id
    pure (record { body = logout_all_success; cookie = clear })

  pub logout_token : Option String → Action (Unit {0})
  logout_token none = pure tt
  logout_token (some raw_token) = AuthService.logout env raw_token

  abbrev cleared_for_web : ClientType → CookieChange
  cleared_for_web web = clear
  cleared_for_web mobile = keep

  pub logout_as : Option ClientType → Request → Action (Response String)
  logout_as none req = throw (bad_request invalid_client_type)
  logout_as (some client) req = do
    logout_token (truthy (raw_token_of client req))
    pure (record { body = logout_success; cookie = cleared_for_web client })

  pub logout : Request → Action (Response String)
  logout req = logout_as (client_type_of req.client_type) req

  abbrev pub refresh_reply : ClientType → Refreshed → Response RefreshBody
  refresh_reply mobile result = record {
    body = record {
      access_token = result.access_token;
      refresh_token = some result.refresh_token;
      refresh_token_expires_at = some result.refresh_token_expires_at;
    };
    cookie = keep;
  }
  refresh_reply web result = record {
    body = record {
      access_token = result.access_token;
      refresh_token = none;
      refresh_token_expires_at = none;
    };
    cookie = refresh_token_cookie node_env result.refresh_token result.refresh_token_expires_at;
  }

  pub refresh_token : ClientType → Option String → Action (Response RefreshBody)
  refresh_token client none = throw (unauthorized invalid_refresh_token)
  refresh_token client (some raw_token) = do
    result ← AuthService.refresh env raw_token
    pure (refresh_reply client result)

  pub refresh_as : Option ClientType → Request → Action (Response RefreshBody)
  refresh_as none req = throw (bad_request invalid_client_type)
  refresh_as (some client) req = refresh_token client (truthy (raw_token_of client req))

  pub refresh : Request → Action (Response RefreshBody)
  refresh req = refresh_as (client_type_of req.client_type) req

  abbrev pub login_reply : ClientType → LoginResult → Response LoginBody
  login_reply client email_not_verified = record {
    body = record {
      status = email_not_verified_status;
      user = none;
      access_token = none;
      refresh_token = none;
      refresh_token_expires_at = none;
    };
    cookie = keep;
  }
  login_reply mobile (success user access_token refresh_token expires_at) = record {
    body = record {
      status = success_status;
      user = some user;
      access_token = some access_token;
      refresh_token = some refresh_token;
      refresh_token_expires_at = some expires_at;
    };
    cookie = keep;
  }
  login_reply web (success user access_token refresh_token expires_at) = record {
    body = record {
      status = success_status;
      user = some user;
      access_token = some access_token;
      refresh_token = none;
      refresh_token_expires_at = none;
    };
    cookie = refresh_token_cookie node_env refresh_token expires_at;
  }

  pub login_as : Option ClientType → (email password : String) → Action (Response LoginBody)
  login_as none email password = throw (bad_request invalid_client_type)
  login_as (some client) email password = do
    result ← AuthService.login env email password
    pure (login_reply client result)

  pub login : Request → (email password : String) → Action (Response LoginBody)
  login req email password = login_as (client_type_of req.client_type) email password
