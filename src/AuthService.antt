-- ===== src/AuthService.antt =====
-- src/module/auth/auth.service.ts: registration, login, sessions, email verification and password
-- reset, over the services of users, tokens and mail.
pub mod Passwords
pub mod Accounts
pub mod Mailed
pub mod Journeys
pub mod Forgotten
use lexi_ledger_backend.Base.{
  ℕ, ◌+◌, String, Bool, true, false, Option, none, some, if◌then◌else◌, is_some, not,
}
use lexi_ledger_backend.Schema.{User}
use lexi_ledger_backend.Platform.{
  World, Action, ok, pure, throw, throw_if, ◌>>=◌, ◌>>◌, unauthorized, conflict, Env, now,
}
use lexi_ledger_backend.Users
use lexi_ledger_backend.Users.{SafeUser, to_safe_user}
use lexi_ledger_backend.RefreshTokens
use lexi_ledger_backend.RefreshTokens.{RefreshResult, invalid, reused, expired, valid}
use lexi_ledger_backend.PasswordResetTokens
use lexi_ledger_backend.EmailVerificationTokens
use lexi_ledger_backend.MailService.{send_verification_email, send_password_reset_email}

-- BCRYPT_SALT_ROUNDS
abbrev pub bcrypt_salt_rounds : ℕ
bcrypt_salt_rounds = 10

-- AUTH_MESSAGES
abbrev pub invalid_credentials : String
invalid_credentials = "Invalid credentials"

abbrev pub email_already_exists : String
email_already_exists = "User with this email already exists"

abbrev pub created_message : String
created_message = "Account created successfully"

abbrev pub invalid_refresh_token : String
invalid_refresh_token = "Invalid refresh token"

abbrev pub invalid_reset_token : String
invalid_reset_token = "Invalid reset token"

abbrev pub forgot_password_generic : String
forgot_password_generic = "If that email exists, we sent a reset code"

abbrev pub reset_successful : String
reset_successful = "Password reset successful"

abbrev pub verification_email_sent_generic : String
verification_email_sent_generic = "Verification email sent"

abbrev pub invalid_verification_token : String
invalid_verification_token = "Invalid verification token"

abbrev pub email_verified : String
email_verified = "Email verified successfully"

-- What `login` returns, by its `status`.
pub data LoginResult : Type 0 where
  email_not_verified : LoginResult
  success :
      (user : SafeUser) (access_token refresh_token : String) (refresh_token_expires_at : ℕ)
      → LoginResult

-- What `refresh` returns.
pub record Refreshed : Type 0 where
  pub access_token : String
  pub refresh_token : String
  pub refresh_token_expires_at : ℕ

-- What `register` returns.
pub record Registered : Type 0 where
  pub message : String
  pub user : SafeUser

module _ (env : Env) where
  -- `bcrypt.hash(password, BCRYPT_SALT_ROUNDS)`, which draws a salt.
  abbrev pub hash_password : String → Action String
  hash_password password w =
      (ok (env.bcrypt_hash w.draws password bcrypt_salt_rounds), record w { draws = w.draws + 1 })

  -- `jwtService.signAsync({ sub: user.id, role: user.role })`
  abbrev pub sign_access_token : User → Action String
  sign_access_token user = do
    t ← now env
    pure (env.sign_async t (record { sub = user.id; role = user.role }))

  pub reset_verified : String → Option ℕ → Action String
  reset_verified new_password none = throw (unauthorized invalid_reset_token)
  reset_verified new_password (some user_id) = do
    password_hash ← hash_password new_password
    Users.update_password env user_id password_hash
    RefreshTokens.revoke_all_for_user env user_id
    pure reset_successful

  pub reset_password : (token new_password : String) → Action String
  reset_password token new_password = do
    verified ← PasswordResetTokens.verify env token
    reset_verified new_password verified

  unfoldable pub send_reset_code : Option User → Action (Unit {0})
  send_reset_code none = pure tt
  send_reset_code (some user) = do
    issued ← PasswordResetTokens.issue env user.id
    send_password_reset_email user.email issued.raw_token

  unfoldable pub forgot_password : String → Action String
  forgot_password email = do
    user ← Users.find_by_email env email
    send_reset_code user
    pure forgot_password_generic

  unfoldable pub logout_all : ℕ → Action (Unit {0})
  logout_all user_id = RefreshTokens.revoke_all_for_user env user_id

  pub logout : String → Action (Unit {0})
  logout raw_token = RefreshTokens.revoke_by_raw_token env raw_token

  unfoldable pub refresh_for : Option User → String → ℕ → Action Refreshed
  refresh_for none raw_token expires_at = throw (unauthorized invalid_refresh_token)
  refresh_for (some user) raw_token expires_at = do
    access_token ← sign_access_token user
    pure (record {
      access_token = access_token;
      refresh_token = raw_token;
      refresh_token_expires_at = expires_at;
    })

  unfoldable pub refresh_result : RefreshResult → Action Refreshed
  refresh_result (valid user_id raw_token expires_at) = do
    user ← Users.find_by_id env user_id
    refresh_for user raw_token expires_at
  refresh_result _ = throw (unauthorized invalid_refresh_token)

  unfoldable pub refresh : String → Action Refreshed
  refresh raw_token = do
    result ← RefreshTokens.validate_and_rotate env raw_token
    refresh_result result

  unfoldable pub send_verification_code : User → Action (Unit {0})
  send_verification_code user = do
    issued ← EmailVerificationTokens.issue env user.id
    send_verification_email user.email issued.raw_token

  pub resend_to : Option User → Action (Unit {0})
  resend_to none = pure tt
  resend_to (some user) =
      if is_some user.email_verified_at then pure tt else send_verification_code user

  pub resend_verification_email : String → Action String
  resend_verification_email email = do
    user ← Users.find_by_email env email
    resend_to user
    pure verification_email_sent_generic

  pub confirm_verified : Option ℕ → Action String
  confirm_verified none = throw (unauthorized invalid_verification_token)
  confirm_verified (some user_id) = do Users.mark_email_as_verified env user_id; pure email_verified

  pub verify_email : String → Action String
  verify_email raw_token = do
    verified ← EmailVerificationTokens.verify env raw_token
    confirm_verified verified

  -- `login` from the test of `emailVerifiedAt` on, for a verified user.
  unfoldable pub sign_in : User → Action LoginResult
  sign_in user = do
    access_token ← sign_access_token user
    issued ← RefreshTokens.issue env user.id
    pure (success (to_safe_user user) access_token issued.raw_token issued.expires_at)

  -- `login` once the password has matched.
  unfoldable pub login_matched : User → Action LoginResult
  login_matched user =
      if not (is_some user.email_verified_at)
      then send_verification_code user >> pure email_not_verified
      else sign_in user

  unfoldable pub login_found : String → Option User → Action LoginResult
  login_found password none = throw (unauthorized invalid_credentials)
  login_found password (some user) =
      if env.bcrypt_compare password user.password_hash
      then login_matched user
      else throw (unauthorized invalid_credentials)

  unfoldable pub login : (email password : String) → Action LoginResult
  login email password = do user ← Users.find_by_email env email; login_found password user

  unfoldable pub register : (name email password : String) → Action Registered
  register name email password = do
    user_exists ← Users.find_by_email env email
    throw_if (is_some user_exists) (conflict email_already_exists)
    password_hash ← hash_password password
    user ← Users.create env (record { name = name; email = email; password_hash = password_hash })
    send_verification_code user
    pure (record { message = created_message; user = to_safe_user user })
