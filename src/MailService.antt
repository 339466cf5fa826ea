-- ===== src/MailService.antt =====
-- src/module/mail: the two emails. Delivery is the mail provider's; a send is recorded in `sent`.
use Prim.Native.String
use lexi_ledger_backend.Base.{String, [], ◌∷◌, ◌++◌}
use lexi_ledger_backend.Platform.{Action, modify, Mail}

abbrev send : Mail → Action (Unit {0})
send mail = modify λ w. record w { sent = w.sent ++ mail ∷ [] }

infixr 65 ◌+++◌
abbrev ◌+++◌ : String → String → String
s +++ t = String.◌++◌ s t

abbrev pub verification_email : String → String → Mail
verification_email to token = record {
  to = to;
  subject = "Verify your email";
  html =
      "<p>Your verification code is: <strong>" +++ token
      +++ "</strong></p><p>This code expires in 24 hours.</p>";
}

abbrev pub password_reset_email : String → String → Mail
password_reset_email to token = record {
  to = to;
  subject = "Reset your password";
  html =
      "<p>Your password reset code is: <strong>" +++ token
      +++ "</strong></p><p>This code expires in 15 minutes.</p>";
}

abbrev pub send_verification_email : String → String → Action (Unit {0})
send_verification_email to token = send (verification_email to token)

abbrev pub send_password_reset_email : String → String → Action (Unit {0})
send_password_reset_email to token = send (password_reset_email to token)
