-- ===== src/Tests/Accounts.antt =====
-- Examples for the accounts: registration, verification, and the clients' ways to carry a token.

use lexi_ledger_backend.Base.{◌+◌, String, ◌≡◌, refl, true, false, none, some, [], ◌∷◌, ◌++◌, ltb}
use lexi_ledger_backend.Base.Text.{to_string}
use lexi_ledger_backend.Schema.{User, OneTimeToken, Role}
use lexi_ledger_backend.Platform.{World, ok, err, unauthorized}
use lexi_ledger_backend.Platform.Memory.{memory, empty}
use lexi_ledger_backend.RefreshTokens
use lexi_ledger_backend.RefreshTokens.{refresh_token_ttl_ms}
use lexi_ledger_backend.Users
use lexi_ledger_backend.Users.{SafeUser, to_safe_user, verified_at}
use lexi_ledger_backend.Users.Queries.{stored, stored_by_email}
use lexi_ledger_backend.OneTimeTokens.{Issued, try_code}
use lexi_ledger_backend.EmailVerificationTokens
use lexi_ledger_backend.EmailVerificationTokens.Codes.{IsUsable}
use lexi_ledger_backend.EmailVerificationTokens.Issue.{IsLeft, issue-IsLeft}
use lexi_ledger_backend.MailService.{verification_email}
use lexi_ledger_backend.AuthService
use lexi_ledger_backend.AuthService.{
  Registered, Refreshed, success, created_message, email_verified, invalid_verification_token,
  email_already_exists, verify_email, register,
}
use lexi_ledger_backend.AuthService.Accounts.{registered, verify_email_once, register_adds}
use lexi_ledger_backend.AuthController.{web, Request, Response, LoginBody, login}
use lexi_ledger_backend.AuthController.Carriers.{IsDelivered, login_delivers}

-- Bob is not verified yet and has the code "123456"; Ada is verified and has the session "raw".
abbrev bob : User
bob = record {
  id = 8;
  name = "Bob";
  email = "bob@a.b";
  password_hash = "$pw";
  role = Role.user;
  email_verified_at = none;
}

abbrev ada : User
ada = record {
  id = 7;
  name = "Ada";
  email = "ada@a.b";
  password_hash = "$pw";
  role = Role.user;
  email_verified_at = some 5;
}

abbrev bob_code : OneTimeToken
bob_code = record {
  id = 61;
  user_id = 8;
  token_hash = "#123456";
  used_at = none;
  expires_at = 9000;
}

abbrev two_users : World
two_users = record empty {
  users = ada ∷ bob ∷ [];
  refresh_tokens =
      record { id = 50; user_id = 7; token_hash = "#raw"; expires_at = 9000; revoked_at = none }
      ∷ [];
  email_verification_tokens = bob_code ∷ [];
}

bob_code-IsUsable : IsUsable memory "123456" bob_code two_users
bob_code-IsUsable = record { found = refl; unused = refl; in_time = refl }

verify_email_once_example :
    let (result, w') = verify_email memory "123456" two_users in
    (result ≡ ok email_verified)
    × (stored 8 w' ≡ some (verified_at memory 1002 bob))
    × (verify_email memory "123456" w' ≡ (err (unauthorized invalid_verification_token), w'))
verify_email_once_example =
    verify_email_once memory "123456" bob_code two_users bob_code-IsUsable refl

issue-IsLeft_example : IsLeft memory 8 (EmailVerificationTokens.issue memory 8 two_users)
issue-IsLeft_example = issue-IsLeft memory 8 two_users

-- The code of the first draw, issued in the empty world.
abbrev first_code : Issued
first_code = record { raw_token = to_string 100000; expires_at = 1001 + 86400000 }

abbrev after_first : World
after_first = (EmailVerificationTokens.issue memory 8 empty).1

issues_first_code : EmailVerificationTokens.issue memory 8 empty ≡ (ok first_code, after_first)
unfolding EmailVerificationTokens.issue EmailVerificationTokens.issue_attempts try_code
    EmailVerificationTokens.create EmailVerificationTokens.hash_token
    EmailVerificationTokens.invalidate_active_for_user
issues_first_code = refl

first_code_in_time : ltb first_code.expires_at (memory.clock after_first.reads) ≡ false
unfolding EmailVerificationTokens.issue EmailVerificationTokens.issue_attempts try_code
    EmailVerificationTokens.create EmailVerificationTokens.hash_token
    EmailVerificationTokens.invalidate_active_for_user
first_code_in_time = refl

abbrev eve : User
eve = registered memory "Eve" "eve@a.b" "pw" empty

abbrev with_eve : World
with_eve = (register memory "Eve" "eve@a.b" "pw" empty).1

eve_registers :
    register memory "Eve" "eve@a.b" "pw" empty
    ≡ (ok (record { message = created_message; user = to_safe_user eve }), with_eve)
unfolding register Users.find_by_email Users.create AuthService.send_verification_code
    EmailVerificationTokens.issue EmailVerificationTokens.issue_attempts try_code
    EmailVerificationTokens.create EmailVerificationTokens.hash_token
    EmailVerificationTokens.invalidate_active_for_user
eve_registers = refl

register_adds_example :
    (to_safe_user eve ≡ to_safe_user eve)
    × (with_eve.users ≡ [] ++ eve ∷ [])
    × (stored_by_email "eve@a.b" with_eve ≡ some eve)
    × (eve.email_verified_at ≡ none)
    × (memory.bcrypt_compare "pw" eve.password_hash ≡ true)
    × ((code : String) × (with_eve.sent ≡ [] ++ verification_email "eve@a.b" code ∷ []))
register_adds_example = register_adds memory "Eve" "eve@a.b" "pw" empty eve_registers refl

-- The requests of a browser and of a phone, both with the token "raw", and one of neither.
abbrev from_browser : Request
from_browser = record { client_type = some "web"; body_token = none; cookie_token = some "raw" }

abbrev from_phone : Request
from_phone = record { client_type = some "mobile"; body_token = some "raw"; cookie_token = none }

abbrev from_nowhere : Request
from_nowhere = record { client_type = some "fridge"; body_token = none; cookie_token = none }

abbrev after_login : World
after_login = (AuthService.login memory "ada@a.b" "pw" two_users).1

ada_logs_in :
    AuthService.login memory "ada@a.b" "pw" two_users
    ≡ (ok (success (to_safe_user ada) "uaaaaaaa" "r0" (1001 + refresh_token_ttl_ms)), after_login)
unfolding AuthService.login AuthService.login_found AuthService.login_matched AuthService.sign_in
    Users.find_by_email RefreshTokens.issue RefreshTokens.create RefreshTokens.hash_token
ada_logs_in = refl

login_delivers_example :
    (reply : Response LoginBody) × (login memory "production" from_browser "ada@a.b" "pw" two_users
      ≡ (ok reply, after_login))
    × IsDelivered web "r0" reply.body.refresh_token reply.cookie
login_delivers_example =
    login_delivers memory "production" from_browser web "ada@a.b" "pw" two_users refl ada_logs_in

abbrev after_refresh : World
after_refresh = (AuthService.refresh memory "raw" two_users).1

abbrev refreshed : Refreshed
refreshed = record {
  access_token = "uaaaaaaa";
  refresh_token = "r0";
  refresh_token_expires_at = 1002 + refresh_token_ttl_ms;
}

ada_refreshes : AuthService.refresh memory "raw" two_users ≡ (ok refreshed, after_refresh)
unfolding AuthService.refresh AuthService.refresh_result AuthService.refresh_for Users.find_by_id
    RefreshTokens.validate_and_rotate RefreshTokens.validate_found RefreshTokens.find_by_token_hash
    RefreshTokens.rotate RefreshTokens.revoke RefreshTokens.issue RefreshTokens.create
    RefreshTokens.hash_token
ada_refreshes = refl
