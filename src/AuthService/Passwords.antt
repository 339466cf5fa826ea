-- ===== src/AuthService/Passwords.antt =====
-- Proofs about `resetPassword` and `login` of src/module/auth/auth.service.ts.
use lexi_ledger_backend.Base.{
  ℕ, ◌+◌, String, ◌≡◌, refl, Bool, true, false, Option, none, some, arith, is_some,
}
use lexi_ledger_backend.Schema.{User, OneTimeToken}
use lexi_ledger_backend.Platform.{World, ok, err, unauthorized, Env}
use lexi_ledger_backend.Users.{SafeUser, to_safe_user, with_password}
use lexi_ledger_backend.Users.Queries.{
  stored, stored_by_email, changed, stored-changed, find_by_email_lem, update_password_lem,
}
use lexi_ledger_backend.OneTimeTokens.Rows.{HasNoCode, marked-HasNoCode}
use lexi_ledger_backend.PasswordResetTokens.Codes.{IsUsable, verify_usable, after_use}
use lexi_ledger_backend.RefreshTokens.Queries.{after_revoke_all, revoke_all_for_user_lem}
use lexi_ledger_backend.RefreshTokens.Rotation.{HasNoSession, revoke_all_ends_sessions}
use lexi_ledger_backend.AuthService.{
  bcrypt_salt_rounds, reset_verified, reset_password, login, login_found, login_matched, sign_in,
  success, invalid_credentials, reset_successful,
}

module _ (env : Env) where
  -- The hash that a reset stores, and the world that it leaves.
  abbrev pub new_hash : String → World → String
  new_hash password w = env.bcrypt_hash w.draws password bcrypt_salt_rounds

  abbrev pub after_reset : OneTimeToken → String → World → World
  after_reset r password w = after_revoke_all env r.user_id (
      changed r.user_id (with_password env (new_hash password w))
        (record (after_use env r w) { draws = w.draws + 1 }))

  pub reset_password_lem :
      (raw password : String) (r : OneTimeToken) (w : World) {u : User}
      → IsUsable env raw r w
      → stored r.user_id w ≡ some u
      → reset_password env raw password w ≡ (ok reset_successful, after_reset r password w)
  unfolding reset_password reset_verified
  reset_password_lem raw password r w usable found = ground (
    arith,
    verify_usable env raw r w usable,
    update_password_lem env r.user_id (new_hash password w)
        (record (after_use env r w) { draws = w.draws + 1 }) found,
    revoke_all_for_user_lem env r.user_id (
        changed r.user_id (with_password env (new_hash password w))
          (record (after_use env r w) { draws = w.draws + 1 })),
  )

  -- A reset with a usable code: the user's new password is the one that matches from then on,
  -- every session of the user ends, and no code of the user is left.
  pub reset_password_secures :
      (raw password : String) (r : OneTimeToken) (w : World) {u : User}
      → IsUsable env raw r w
      → stored r.user_id w ≡ some u
      → let (result, w') = reset_password env raw password w in
        (result ≡ ok reset_successful)
        × (stored r.user_id w' ≡ some (with_password env (new_hash password w) u))
        × (env.bcrypt_compare password (new_hash password w) ≡ true)
        × HasNoSession r.user_id w'
        × HasNoCode r.user_id w'.password_reset_tokens
  reset_password_secures raw password r w {u} usable found =
      let u' = with_password env (new_hash password w) in
      let before = record (after_use env r w) { draws = w.draws + 1 } in
      rw (reset_password_lem raw password r w usable found) (
        refl,
        stored-changed r.user_id u' before (λ x. refl) found,
        env.bcrypt_law w.draws password bcrypt_salt_rounds,
        (revoke_all_ends_sessions env r.user_id (changed r.user_id u' before)).0,
        marked-HasNoCode r.user_id r.id (env.clock (w.reads + 1)) (env.clock (w.reads + 2))
            w.password_reset_tokens,
      )

  -- The password is that of the user, if there is one.
  abbrev pub matches : String → Option User → Bool
  matches password none = false
  matches password (some u) = env.bcrypt_compare password u.password_hash

  pub login_stored :
      (email password : String) (w : World)
      → login env email password w ≡ login_found env password (stored_by_email email w) w
  unfolding login
  login_stored email password w = ground (arith, find_by_email_lem env email w)

  login_found_rejects :
      (password : String) (o : Option User) (w : World)
      → matches password o ≡ false
      → login_found env password o w ≡ (err (unauthorized invalid_credentials), w)
  unfolding login_found
  login_found_rejects password none w h = refl
  login_found_rejects password (some u) w h = ground arith

  -- An unknown email and a wrong password get one and the same answer, and change nothing.
  pub login_rejects :
      (email password : String) (w : World)
      → matches password (stored_by_email email w) ≡ false
      → login env email password w ≡ (err (unauthorized invalid_credentials), w)
  login_rejects email password w h =
      rw (login_stored email password w)
        (login_found_rejects password (stored_by_email email w) w h)

  login_found_sound :
      (password : String) (o : Option User) (w : World) {user : SafeUser} {access refresh : String}
      {t : ℕ}
      → (login_found env password o w).0 ≡ ok (success user access refresh t)
      → (u : User) × (o ≡ some u)
        × (env.bcrypt_compare password u.password_hash ≡ true)
        × (is_some u.email_verified_at ≡ true)
        × (user ≡ to_safe_user u)
  unfolding login_found login_matched sign_in
  login_found_sound password none w h = cc
  login_found_sound password (some u) w h = (u, refl, ground arith, ground arith, ground arith)

  -- Tokens are handed out only to a user with the email, whose password matches and whose email
  -- is verified; the answer shows that user without the hash.
  pub login_sound :
      (email password : String) (w : World) {user : SafeUser} {access refresh : String} {t : ℕ}
      → (login env email password w).0 ≡ ok (success user access refresh t)
      → (u : User) × (stored_by_email email w ≡ some u)
        × (env.bcrypt_compare password u.password_hash ≡ true)
        × (is_some u.email_verified_at ≡ true)
        × (user ≡ to_safe_user u)
  login_sound email password w h =
      login_found_sound password (stored_by_email email w) w
        (rw (login_stored email password w) at h)
