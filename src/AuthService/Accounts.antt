-- ===== src/AuthService/Accounts.antt =====
-- Proofs about `register` and `verifyEmail` of src/module/auth/auth.service.ts.
use lexi_ledger_backend.Base.{
  ℕ, ◌+◌, String, ◌≡◌, refl, sym, ◌∙◌, ap, true, false, none, some, [], ◌∷◌, ◌++◌, arith, find?,
  find?-append_none, any, str_eq, eq_refl, Bool-cases, inl, inr,
}
use lexi_ledger_backend.Schema.{User, OneTimeToken}
use lexi_ledger_backend.Platform.{
  World, Result, ok, err, unauthorized, conflict, prisma, p2002, Env,
}
use lexi_ledger_backend.Users
use lexi_ledger_backend.Users.{
  SafeUser, to_safe_user, verified_at, CreateUserInput, mark_email_as_verified, update_user,
}
use lexi_ledger_backend.Users.Queries.{
  stored, stored_by_email, changed, stored-changed, find_by_email_lem, new_user, create_lem,
  create_clash, mark_verified_lem,
}
use lexi_ledger_backend.OneTimeTokens.{Issued}
use lexi_ledger_backend.EmailVerificationTokens
use lexi_ledger_backend.EmailVerificationTokens.Codes
use lexi_ledger_backend.EmailVerificationTokens.Codes.{
  IsUsable, verify_usable, verify_used, found_after_use, after_use,
}
use lexi_ledger_backend.EmailVerificationTokens.Frame.{Keeps-issue}
use lexi_ledger_backend.MailService.{verification_email}
use lexi_ledger_backend.AuthService.{
  bcrypt_salt_rounds, verify_email, confirm_verified, email_verified, invalid_verification_token,
  register, Registered, email_already_exists, send_verification_code, created_message,
}

module _ (env : Env) where
  -- The world after a code is accepted.
  abbrev pub after_verify : OneTimeToken → World → World
  after_verify r w =
      changed r.user_id (verified_at env (env.clock (w.reads + 2)))
        (record (after_use env r w) { reads = w.reads + 2 + 1 })

  pub verify_email_lem :
      (raw : String) (r : OneTimeToken) (w : World) {u : User}
      → IsUsable env raw r w
      → stored r.user_id w ≡ some u
      → verify_email env raw w ≡ (ok email_verified, after_verify r w)
  unfolding verify_email confirm_verified
  verify_email_lem raw r w usable found = ground (
    arith,
    verify_usable env raw r w usable,
    mark_verified_lem env r.user_id (after_use env r w) found,
  )

  verify_email_refused :
      (raw : String) (w : World) {r : OneTimeToken} {t : ℕ}
      → Codes.stored env raw w ≡ some r
      → r.used_at ≡ some t
      → verify_email env raw w ≡ (err (unauthorized invalid_verification_token), w)
  unfolding verify_email confirm_verified
  verify_email_refused raw w h e = ground (arith, verify_used env raw w h e)

  -- Presenting a usable verification code verifies the email of the user that it was issued to,
  -- once: the same code is then refused and changes nothing.
  pub verify_email_once :
      (raw : String) (r : OneTimeToken) (w : World) {u : User}
      → IsUsable env raw r w
      → stored r.user_id w ≡ some u
      → let (result, w') = verify_email env raw w in
        (result ≡ ok email_verified)
        × (stored r.user_id w' ≡ some (verified_at env (env.clock (w.reads + 2)) u))
        × (verify_email env raw w' ≡ (err (unauthorized invalid_verification_token), w'))
  verify_email_once raw r w usable found = rw (verify_email_lem raw r w usable found) (
    refl,
    stored-changed r.user_id (verified_at env (env.clock (w.reads + 2)))
        (record (after_use env r w) { reads = w.reads + 2 + 1 }) (λ x. refl) found,
    verify_email_refused raw (after_verify r w) (found_after_use env raw r w usable) refl,
  )

  -- What sending a code does, by the outcome of `issue`.
  mailed :
      (u : User) (r : Result Issued) (v w' : World)
      → elim r as (λ _. Result (Unit {0}) × World) [
        | ok i ↦ (ok tt, record v { sent = v.sent ++ verification_email u.email i.raw_token ∷ [] })
        | err e ↦ (err e, v)
      ]
        ≡ (ok tt, w')
      → (code : String) × (w' ≡ record v { sent = v.sent ++ verification_email u.email code ∷ [] })
  mailed u (ok i) v w' h = (i.raw_token, ap (λ x. x.1) (sym h))
  mailed u (err e) v w' h = absurd (cc)

  send_verification_code_lem :
      (u : User) (w : World) {w' : World}
      → send_verification_code env u w ≡ (ok tt, w')
      → (code : String) × (w'.users ≡ w.users)
        × (w'.sent ≡ w.sent ++ verification_email u.email code ∷ [])
  unfolding send_verification_code
  send_verification_code_lem u w {w'} h =
      let (r, v) = EmailVerificationTokens.issue env u.id w in
      let same = (Keeps-issue env w u.id).at w (record { users = refl; sent = refl }) in
      let (code, e) = mailed u r v w' h in (code, rw e same.users, rw (e, same.sent) refl)

  -- The row that a registration writes, and the world with it.
  abbrev pub registered : (name email password : String) → World → User
  registered name email password w =
      new_user env
        (record {
          name = name;
          email = email;
          password_hash = env.bcrypt_hash w.draws password bcrypt_salt_rounds;
        })
        (record w { draws = w.draws + 1 })

  abbrev pub with_registered : (name email password : String) → World → World
  with_registered name email password w = record w {
    users = w.users ++ registered name email password w ∷ [];
    draws = w.draws + 1;
    ids = w.ids + 1;
  }

  abbrev pub welcomed : User → Registered
  welcomed u = record { message = created_message; user = to_safe_user u }

  -- What `register` does after the code is sent, or not.
  abbrev answered : User → Result (Unit {0}) × World → Result Registered × World
  answered u (ok _, v) = (ok (welcomed u), v)
  answered u (err e, v) = (err e, v)

  register_free :
      (name email password : String) (w : World)
      → stored_by_email email w ≡ none
      → any (Users.clash (registered name email password w)) w.users ≡ false
      → let u = registered name email password w in
        register env name email password w
        ≡ answered u (send_verification_code env u (with_registered name email password w))
  unfolding register
  register_free name email password w missing free =
      let input : CreateUserInput = record {
        name = name;
        email = email;
        password_hash = env.bcrypt_hash w.draws password bcrypt_salt_rounds;
      } in
      ground (
        arith,
        find_by_email_lem env email w,
        missing,
        create_lem env input (record w { draws = w.draws + 1 }) free,
      )

  register-clash :
      (name email password : String) (w : World)
      → stored_by_email email w ≡ none
      → any (Users.clash (registered name email password w)) w.users ≡ true
      → (register env name email password w).0 ≡ err (prisma p2002)
  unfolding register
  register-clash name email password w missing taken =
      let input : CreateUserInput = record {
        name = name;
        email = email;
        password_hash = env.bcrypt_hash w.draws password bcrypt_salt_rounds;
      } in
      ground (
        arith,
        find_by_email_lem env email w,
        missing,
        create_clash env input (record w { draws = w.draws + 1 }) taken,
      )

  answered_ok :
      (u : User) (r : Result (Unit {0})) (v w' : World) {reply : Registered}
      → answered u (r, v) ≡ (ok reply, w')
      → (◌≡◌ {A = Result (Unit {0}) × World} (r, v) (ok tt, w')) × (reply ≡ welcomed u)
  answered_ok u (ok done) v w' h = (ap (λ w. (ok tt, w)) (ap (λ x. x.1) h), ground arith)
  answered_ok u (err e) v w' h = absurd (cc)

  -- A registration that succeeds with an email that no user had: its row clashes with none, and
  -- the code was sent.
  pub register_sends :
      (name email password : String) (w : World) {reply : Registered} {w' : World}
      → register env name email password w ≡ (ok reply, w')
      → stored_by_email email w ≡ none
      → let u = registered name email password w in
        (any (Users.clash u) w.users ≡ false)
        × (send_verification_code env u (with_registered name email password w) ≡ (ok tt, w'))
        × (reply ≡ welcomed u)
  register_sends name email password w {reply} {w'} e missing =
      let u = registered name email password w in
      elim (Bool-cases (any (Users.clash u) w.users)) [
        | inl taken ↦ absurd (ground (arith, register-clash name email password w missing taken, e))
        | inr free ↦
            let (r, v) = send_verification_code env u (with_registered name email password w) in
            let (done, reply_is) =
              answered_ok u r v w' (sym (register_free name email password w missing free) ∙ e) in
            (free, done, reply_is)
      ]

  pub registered_found :
      (name email password : String) (w : World)
      → stored_by_email email w ≡ none
      → find? (λ u. str_eq u.email email) (w.users ++ registered name email password w ∷ [])
        ≡ some (registered name email password w)
  registered_found name email password w missing =
      find?-append_none (λ u. str_eq u.email email) w.users (registered name email password w ∷ [])
        missing
      ∙ ground (arith, eq_refl email)

  -- A registration that succeeds, with an email that no user had: one user is added, who is found
  -- by the email, has the password, and is not verified; one email with a code goes to the address.
  pub register_adds :
      (name email password : String) (w : World) {reply : Registered} {w' : World}
      → register env name email password w ≡ (ok reply, w')
      → stored_by_email email w ≡ none
      → let u = registered name email password w in
        (reply.user ≡ to_safe_user u)
        × (w'.users ≡ w.users ++ u ∷ [])
        × (stored_by_email email w' ≡ some u)
        × (u.email_verified_at ≡ none)
        × (env.bcrypt_compare password u.password_hash ≡ true)
        × ((code : String) × (w'.sent ≡ w.sent ++ verification_email email code ∷ []))
  register_adds name email password w e missing =
      let (free, done, reply_is) = register_sends name email password w e missing in
      let u = registered name email password w in
      let (code, users, sent) =
        send_verification_code_lem u (with_registered name email password w) done in
      (
        ap (λ x. x.user) reply_is,
        users,
        rw users (registered_found name email password w missing),
        refl,
        env.bcrypt_law w.draws password bcrypt_salt_rounds,
        (code, sent),
      )

  -- An email that a user has already is refused, and nothing changes.
  pub register_conflict :
      (name email password : String) (w : World) {u : User}
      → stored_by_email email w ≡ some u
      → register env name email password w ≡ (err (conflict email_already_exists), w)
  unfolding register
  register_conflict name email password w found =
      ground (arith, find_by_email_lem env email w, found)
