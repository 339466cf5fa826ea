-- ===== src/Tests/Journeys.antt =====
-- Examples for what the codes in emails are good for: Eve registers, and Ada forgets her password.
use lexi_ledger_backend.Base.{◌≡◌, refl}
use lexi_ledger_backend.Base.Text
use lexi_ledger_backend.Schema.{User}
use lexi_ledger_backend.Platform.{World, ok}
use lexi_ledger_backend.Platform.Memory.{memory, empty}
use lexi_ledger_backend.OneTimeTokens.{try_code}
use lexi_ledger_backend.Users
use lexi_ledger_backend.PasswordResetTokens
use lexi_ledger_backend.EmailVerificationTokens
use lexi_ledger_backend.AuthService.{
  register, send_verification_code, forgot_password, send_reset_code, forgot_password_generic,
}
use lexi_ledger_backend.AuthService.Accounts.{registered, welcomed}
use lexi_ledger_backend.AuthService.Journeys.{CanSignIn, registered-CanSignIn}
use lexi_ledger_backend.AuthService.Forgotten.{CanReset, forgotten-CanReset}
use lexi_ledger_backend.Tests.Sessions.{signed_in, ada}

abbrev eve : User
eve = registered memory "Eve" "eve@a.b" "pw" empty

abbrev after_eve : World
after_eve = (register memory "Eve" "eve@a.b" "pw" empty).1

eve_registers : register memory "Eve" "eve@a.b" "pw" empty ≡ (ok (welcomed memory eve), after_eve)
unfolding register send_verification_code Users.create Users.find_by_email try_code
    EmailVerificationTokens.issue EmailVerificationTokens.issue_attempts
    EmailVerificationTokens.create EmailVerificationTokens.hash_token
    EmailVerificationTokens.invalidate_active_for_user
eve_registers = refl

registered-CanSignIn_example : CanSignIn memory "eve@a.b" "pw" eve empty after_eve
unfolding register send_verification_code Users.create Users.find_by_email try_code
    EmailVerificationTokens.issue EmailVerificationTokens.issue_attempts
    EmailVerificationTokens.create EmailVerificationTokens.hash_token
    EmailVerificationTokens.invalidate_active_for_user
registered-CanSignIn_example =
    registered-CanSignIn memory "Eve" "eve@a.b" "pw" empty eve_registers refl refl

abbrev forgot : World
forgot = (forgot_password memory "ada@a.b" signed_in).1

ada_forgets : forgot_password memory "ada@a.b" signed_in ≡ (ok forgot_password_generic, forgot)
unfolding forgot_password send_reset_code Users.find_by_email try_code PasswordResetTokens.issue
    PasswordResetTokens.issue_attempts PasswordResetTokens.create PasswordResetTokens.hash_token
    Text.to_string
ada_forgets = refl

forgotten-CanReset_example : CanReset memory "ada@a.b" "new" ada signed_in forgot
unfolding forgot_password send_reset_code Users.find_by_email try_code PasswordResetTokens.issue
    PasswordResetTokens.issue_attempts PasswordResetTokens.create PasswordResetTokens.hash_token
    Text.to_string
forgotten-CanReset_example =
    forgotten-CanReset memory "ada@a.b" "new" signed_in ada_forgets refl refl refl
