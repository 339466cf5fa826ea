-- ===== src/AuthService/Forgotten.antt =====
-- Proofs about src/module/auth/auth.service.ts across requests: what the code in the email of a
-- forgotten password is good for.
use lexi_ledger_backend.Base.{
  ◌+◌, String, ◌≡◌, refl, sym, subst, true, false, some, [], ◌∷◌, ◌++◌, arith, ltb,
}
use lexi_ledger_backend.Schema.{User, OneTimeToken}
use lexi_ledger_backend.Platform.{World, ok, Env, pure, ◌>>◌}
use lexi_ledger_backend.Users.{with_password}
use lexi_ledger_backend.Users.Queries.{stored, stored_by_email, by_email-changed, find_by_email_lem}
use lexi_ledger_backend.PasswordResetTokens
use lexi_ledger_backend.PasswordResetTokens.{password_reset_token_ttl_ms}
use lexi_ledger_backend.PasswordResetTokens.Codes as ResetCodes
use lexi_ledger_backend.PasswordResetTokens.Issue as ResetIssue
use lexi_ledger_backend.PasswordResetTokens.Frame as ResetFrame
use lexi_ledger_backend.MailService.{password_reset_email}
use lexi_ledger_backend.AuthService.{
  bcrypt_salt_rounds, login, login_found, login_matched, reset_password, reset_successful,
  forgot_password, send_reset_code, forgot_password_generic,
}
use lexi_ledger_backend.AuthService.Passwords.{
  login_stored, reset_password_lem, new_hash, after_reset,
}
use lexi_ledger_backend.AuthService.Mailed.{sent_after, done_of}

module _ (env : Env) where
  -- What a forgotten password is good for: the user's address got one email with a code, with the
  -- code a new password is set, and then the new password is the one that a login asks for.
  abbrev pub CanReset : (email new_password : String) → User → (before after : World) → Type 0
  CanReset email new_password u before after =
      (code hash : String) × (after.sent ≡ before.sent ++ password_reset_email u.email code ∷ [])
      × let (result, reset) = reset_password env code new_password after in
        (result ≡ ok reset_successful)
        × (login env email new_password reset ≡ login_matched env (with_password env hash u) reset)

  login_matches :
      (email password : String) (w : World) {u : User}
      → stored_by_email email w ≡ some u
      → env.bcrypt_compare password u.password_hash ≡ true
      → login env email password w ≡ login_matched env u w
  unfolding login_found
  login_matches email password w found matched =
      rw (login_stored env email password w, found) (ground (arith, matched))

  usable-CanReset :
      (email new_password code : String) (r : OneTimeToken) (u : User) (before w : World)
      → ResetCodes.IsUsable env code r w
      → r.user_id ≡ u.id
      → stored u.id w ≡ some u
      → stored_by_email email w ≡ some u
      → w.sent ≡ before.sent ++ password_reset_email u.email code ∷ []
      → CanReset email new_password u before w
  usable-CanReset email new_password code r u before w usable owner by_id by_email sent =
      let hash = new_hash env new_password w in
      (
        code,
        hash,
        sent,
        rw
            (reset_password_lem env code new_password r w usable
              (subst (λ x. stored x w ≡ some u) (sym owner) by_id))
            (
              refl,
              login_matches email new_password (after_reset env r new_password w)
                  (by_email-changed r.user_id email (with_password env hash)
                    (record (ResetCodes.after_use env r w) { draws = w.draws + 1 }) (λ x. refl)
                    by_email (sym owner))
                  (env.bcrypt_law w.draws new_password bcrypt_salt_rounds),
            ),
      )

  forgot_password_lem :
      (email : String) (w : World)
      → forgot_password env email w
        ≡ (send_reset_code env (stored_by_email email w) >> pure forgot_password_generic) w
  unfolding forgot_password
  forgot_password_lem email w = ground (arith, find_by_email_lem env email w)

  forgot_sends :
      (email : String) (w : World) {u : User} {reply : String} {w' : World}
      → forgot_password env email w ≡ (ok reply, w')
      → stored_by_email email w ≡ some u
      → send_reset_code env (some u) w ≡ (ok tt, w')
  forgot_sends email w {u} e found =
      done_of (send_reset_code env (some u)) forgot_password_generic w
        (rw (forgot_password_lem email w, found) at e)

  -- A request for a forgotten password that succeeds, for a stored user, sends the address one
  -- email with a code. Presented before its expiry, the code sets a new password, and then a login
  -- with the email and the new password gets past the test of the password.
  pub forgotten-CanReset :
      (email new_password : String) (w : World) {u : User} {reply : String} {w' : World}
      → forgot_password env email w ≡ (ok reply, w')
      → stored_by_email email w ≡ some u
      → stored u.id w ≡ some u
      → ltb (env.clock w.reads + password_reset_token_ttl_ms) (env.clock w'.reads) ≡ false
      → CanReset email new_password u w w'
  unfolding send_reset_code
  forgotten-CanReset email new_password w {u} e by_email by_id in_time =
      let (i, issued, after) =
        sent_after (PasswordResetTokens.issue env u.id)
          (λ i. password_reset_email u.email i.raw_token) w (forgot_sends email w e by_email) in
      let v = (PasswordResetTokens.issue env u.id w).1 in
      let same = (ResetFrame.Keeps-issue env w u.id).at w (record { users = refl; sent = refl }) in
      let (r, owner, usable) =
        ResetIssue.issued-IsUsable env u.id w issued
          (rw (ResetIssue.issued_expiry env u.id w issued) (rw after at in_time)) in
      let m = record v { sent = v.sent ++ password_reset_email u.email i.raw_token ∷ [] } in
      subst (CanReset email new_password u w) (sym after) (
        usable-CanReset email new_password i.raw_token r u w m
          (record { found = usable.found; unused = usable.unused; in_time = usable.in_time }) owner
          (rw same.users by_id) (rw same.users by_email) (rw same.sent refl))
