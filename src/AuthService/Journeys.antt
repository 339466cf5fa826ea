-- ===== src/AuthService/Journeys.antt =====
-- Proofs about src/module/auth/auth.service.ts across requests: what the code in the email of a
-- registration is good for.
use lexi_ledger_backend.Base.{
  ℕ, ◌+◌, String, ◌≡◌, refl, sym, subst, ◌∙◌, true, false, none, some, [], ◌∷◌, ◌++◌, arith,
  find?-append_none, ==_refl, ◌==◌, ltb,
}
use lexi_ledger_backend.Schema.{User, OneTimeToken}
use lexi_ledger_backend.Platform.{World, ok, Env}
use lexi_ledger_backend.Users.{verified_at}
use lexi_ledger_backend.Users.Queries.{stored, stored_by_email, by_email-changed, id_is_free}
use lexi_ledger_backend.EmailVerificationTokens
use lexi_ledger_backend.EmailVerificationTokens.Codes
use lexi_ledger_backend.EmailVerificationTokens.Issue
use lexi_ledger_backend.EmailVerificationTokens.Frame
use lexi_ledger_backend.MailService.{verification_email}
use lexi_ledger_backend.AuthService.{
  bcrypt_salt_rounds, verify_email, email_verified, register, Registered, send_verification_code,
  login, login_found, login_matched, sign_in,
}
use lexi_ledger_backend.AuthService.Passwords.{login_stored}
use lexi_ledger_backend.AuthService.Accounts.{
  registered, with_registered, register_sends, registered_found, verify_email_lem, after_verify,
}
use lexi_ledger_backend.AuthService.Mailed.{sent_after}

module _ (env : Env) where
  -- A verified user with the password is signed in.
  pub login_signs_in :
      (email password : String) (w : World) {u : User} {t : ℕ}
      → stored_by_email email w ≡ some u
      → env.bcrypt_compare password u.password_hash ≡ true
      → u.email_verified_at ≡ some t
      → login env email password w ≡ sign_in env u w
  unfolding login_found login_matched
  login_signs_in email password w found matched verified =
      rw (login_stored env email password w, found) (ground (arith, matched, verified))

  -- What a registration is good for: the address got one email with a code, the code verifies the
  -- email, and then the password signs the user in.
  abbrev pub CanSignIn : (email password : String) → User → (before after : World) → Type 0
  CanSignIn email password u before after =
      (code : String) × (t : ℕ) × (after.sent ≡ before.sent ++ verification_email email code ∷ [])
      × let (result, verified) = verify_email env code after in
        (result ≡ ok email_verified)
        × (login env email password verified ≡ sign_in env (verified_at env t u) verified)

  usable-CanSignIn :
      (email password code : String) (r : OneTimeToken) (u : User) (before w : World)
      → Codes.IsUsable env code r w
      → r.user_id ≡ u.id
      → stored u.id w ≡ some u
      → stored_by_email email w ≡ some u
      → env.bcrypt_compare password u.password_hash ≡ true
      → w.sent ≡ before.sent ++ verification_email email code ∷ []
      → CanSignIn email password u before w
  usable-CanSignIn email password code r u before w usable owner by_id by_email matched sent =
      let t = env.clock (w.reads + 2) in
      (
        code,
        t,
        sent,
        rw
            (verify_email_lem env code r w usable
              (subst (λ x. stored x w ≡ some u) (sym owner) by_id))
            (
              refl,
              login_signs_in email password (after_verify env r w)
                  (by_email-changed r.user_id email (verified_at env t)
                    (record (Codes.after_use env r w) { reads = w.reads + 2 + 1 }) (λ x. refl)
                    by_email (sym owner))
                  matched refl,
            ),
      )

  -- A registration that succeeds with an email that no user had sends the address one email with a
  -- code. Presented before its expiry, the code verifies the email, and then a login with the email
  -- and the password goes on to sign in that user.
  pub registered-CanSignIn :
      (name email password : String) (w : World) {reply : Registered} {w' : World}
      → register env name email password w ≡ (ok reply, w')
      → stored_by_email email w ≡ none
      → ltb (Issue.expiry env w) (env.clock w'.reads) ≡ false
      → CanSignIn email password (registered env name email password w) w w'
  unfolding send_verification_code
  registered-CanSignIn name email password w e missing in_time =
      let u = registered env name email password w in
      let start = with_registered env name email password w in
      let (free, done, _) = register_sends env name email password w e missing in
      let (i, issued, after) =
        sent_after (EmailVerificationTokens.issue env u.id)
          (λ i. verification_email u.email i.raw_token) start done in
      let v = (EmailVerificationTokens.issue env u.id start).1 in
      let same =
        (Frame.Keeps-issue env start u.id).at start (record { users = refl; sent = refl }) in
      let (r, owner, usable) =
        Issue.issued-IsUsable env u.id start issued
          (rw (Issue.issued_expiry env u.id start issued) (rw after at in_time)) in
      let m = record v { sent = v.sent ++ verification_email u.email i.raw_token ∷ [] } in
      subst (CanSignIn email password u w) (sym after) (
        usable-CanSignIn email password i.raw_token r u w m
          (record { found = usable.found; unused = usable.unused; in_time = usable.in_time }) owner
          (rw same.users (
            find?-append_none (λ x. x.id == u.id) w.users (u ∷ []) (id_is_free u w.users free)
            ∙ ground (arith, ==_refl u.id)))
          (rw same.users (registered_found env name email password w missing))
          (env.bcrypt_law w.draws password bcrypt_salt_rounds) (rw same.sent refl))
