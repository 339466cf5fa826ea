-- ===== src/Api/Sessions.antt =====
-- Proofs about src/module/auth/strategy/jwt.strategy.ts and the access tokens that `login` of
-- src/module/auth/auth.service.ts signs.
use lexi_ledger_backend.Base.{
  ℕ, ◌+◌, ◌/◌, ◌<◌, String, ◌≡◌, refl, sym, ◌∙◌, ap, true, Option, none, some, arith, is_some,
}
use lexi_ledger_backend.Schema.{User, RefreshToken}
use lexi_ledger_backend.Platform.{World, Result, ok, err, Env, JwtPayload}
use lexi_ledger_backend.Users.{SafeUser, to_safe_user}
use lexi_ledger_backend.RefreshTokens
use lexi_ledger_backend.RefreshTokens.{Issued}
use lexi_ledger_backend.RefreshTokens.{refresh_token_ttl_ms}
use lexi_ledger_backend.RefreshTokens.Queries.{issued_raw, issued_row, after_issue}
use lexi_ledger_backend.RefreshTokens.Rotation
use lexi_ledger_backend.RefreshTokens.Rotation.{
  IsUsable, before_issue, validate_and_rotate_valid, rotation_replaces,
}
use lexi_ledger_backend.Users.Queries.{stored, find_by_id_lem}
use lexi_ledger_backend.AuthService.{Refreshed, refresh, refresh_result, refresh_for}
use lexi_ledger_backend.AuthService.{LoginResult, success, login, sign_in}
use lexi_ledger_backend.AuthService.Passwords.{login_sound}
use lexi_ledger_backend.AuthService.Journeys.{login_signs_in}
use lexi_ledger_backend.Api.Guard.{jwt_auth_guard, validate}

module _ (env : Env) where
  -- The claims that `signAccessToken` signs.
  abbrev pub claims_of : User → JwtPayload
  claims_of u = record { sub = u.id; role = u.role }

  -- What `sign_in` returns, by the outcome of the issue of the refresh token.
  issued_success :
      (access : String) (u : User) (r : Result Issued) (v : World) {w' : World} {user : SafeUser}
      {token refresh : String} {t : ℕ}
      → elim r as (λ _. Result LoginResult × World) [
        | ok i ↦ (ok (success (to_safe_user u) access i.raw_token i.expires_at), v)
        | err e ↦ (err e, v)
      ]
        ≡ (ok (success user token refresh t), w')
      → (token ≡ access) × (user ≡ to_safe_user u)
  issued_success access u (ok i) v h = (ground arith, ground arith)
  issued_success access u (err e) v h = absurd (cc)

  sign_in_success :
      (u : User) (w : World) {w' : World} {user : SafeUser} {token refresh : String} {t : ℕ}
      → sign_in env u w ≡ (ok (success user token refresh t), w')
      → (token ≡ env.sign_async (env.clock w.reads) (claims_of u)) × (user ≡ to_safe_user u)
  unfolding sign_in
  sign_in_success u w h =
      let signed = record w { reads = w.reads + 1 } in
      let (r, v) = RefreshTokens.issue env u.id signed in
      issued_success (env.sign_async (env.clock w.reads) (claims_of u)) u r v h

  verified_at_some : (o : Option ℕ) → is_some o ≡ true → (t : ℕ) × (o ≡ some t)
  verified_at_some none h = absurd (cc)
  verified_at_some (some t) h = (t, refl)

  admitted :
      (token : String) (payload : JwtPayload) (v : World)
      → env.jwt_verify (env.clock v.reads) token ≡ some payload
      → jwt_auth_guard env (some token) v
        ≡ (ok (validate payload), record v { reads = v.reads + 1 })
  unfolding jwt_auth_guard
  admitted token payload v h = rw h refl

  -- The access token of a login that succeeded, presented before it expires by the second, passes
  -- the guard as the user that the login told, with the role.
  pub login_token_admits :
      (email password : String) (w v : World) {w' : World} {user : SafeUser}
      {access refresh : String} {t : ℕ}
      → login env email password w ≡ (ok (success user access refresh t), w')
      → env.clock v.reads / 1000 < env.clock w.reads / 1000 + env.access_expires_in
      → jwt_auth_guard env (some access) v
        ≡ (ok (record { user_id = user.id; role = user.role }), record v { reads = v.reads + 1 })
  login_token_admits email password w v {w'} {user} {access} e in_time =
      let (u, found, matched, verified, _) = login_sound env email password w (ap (λ x. x.0) e) in
      let (time, verified_is) = verified_at_some u.email_verified_at verified in
      let (token_is, user_is) =
        sign_in_success u w
          (sym (login_signs_in env email password w found matched verified_is) ∙ e) in
      let law = env.jwt_law (env.clock w.reads) (env.clock v.reads) (claims_of u) in_time in
      rw (admitted access (claims_of u) v (rw token_is law), user_is) refl

  -- The answer of a refresh of a usable token.
  abbrev pub refreshed : RefreshToken → User → World → Refreshed
  refreshed r u w = record {
    access_token = env.sign_async (env.clock (w.reads + 1 + 1 + 1)) (claims_of u);
    refresh_token = issued_raw env (before_issue env r w);
    refresh_token_expires_at = env.clock (w.reads + 2) + refresh_token_ttl_ms;
  }

  refresh_lem :
      (raw : String) (r : RefreshToken) (w : World) {u : User}
      → IsUsable env raw r w
      → stored r.user_id w ≡ some u
      → refresh env raw w ≡ (
        ok (refreshed r u w),
        record (after_issue env r.user_id (before_issue env r w)) {
          reads = w.reads + 1 + 1 + 1 + 1;
        },
      )
  unfolding refresh refresh_result refresh_for
  refresh_lem raw r w usable found = ground (
    arith,
    validate_and_rotate_valid env raw r w usable,
    find_by_id_lem env r.user_id (after_issue env r.user_id (before_issue env r w)),
    found,
  )

  -- A refresh with a usable token of a stored user answers with the next refresh token, which is
  -- found by its hash, active and of the same user, and with an access token that passes the guard
  -- as the user before it expires by the second.
  pub refresh_continues :
      (raw : String) (r : RefreshToken) (w v : World) {u : User}
      → IsUsable env raw r w
      → stored r.user_id w ≡ some u
      → env.clock v.reads / 1000 < env.clock (w.reads + 1 + 1 + 1) / 1000 + env.access_expires_in
      → let (result, w') = refresh env raw w in
        (reply : Refreshed) × (next : RefreshToken) × (result ≡ ok reply)
        × (Rotation.stored env reply.refresh_token w' ≡ some next)
        × (next.user_id ≡ r.user_id)
        × (next.revoked_at ≡ none)
        × (jwt_auth_guard env (some reply.access_token) v
            ≡ (ok (record { user_id = u.id; role = u.role }), record v { reads = v.reads + 1 }))
  refresh_continues raw r w v {u} usable found in_time =
      let (_, next_found, _) = rotation_replaces env raw r w usable in
      let law =
        env.jwt_law (env.clock (w.reads + 1 + 1 + 1)) (env.clock v.reads) (claims_of u) in_time in
      rw (refresh_lem raw r w usable found) (
        refreshed r u w,
        issued_row env r.user_id (before_issue env r w),
        refl,
        rw (validate_and_rotate_valid env raw r w usable) at next_found,
        refl,
        refl,
        admitted (refreshed r u w).access_token (claims_of u) v law,
      )
