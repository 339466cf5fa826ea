-- ===== src/RefreshTokens.antt =====
-- src/module/refresh-tokens: the repository, and the service that issues, rotates and revokes
-- refresh tokens. Only the hash of a token is stored.
pub mod Queries
pub mod Rotation
pub mod Spent
use Prim.Native.Nat.{◌*◌}
use lexi_ledger_backend.Base.{
  ℕ, ◌+◌, String, Bool, Option, none, some, List, ◌==◌, not, ◌&&◌, if◌then◌else◌, is_some, ltb,
  str_eq,
}
use lexi_ledger_backend.Schema.{RefreshToken}
use lexi_ledger_backend.Platform.{
  World, Action, ok, err, pure, gets, throw, modify, ◌>>=◌, ◌>>◌, prisma, p2002, p2025, Env, now,
  new_id, random_bytes_hex,
}

-- REFRESH_TOKEN_BYTES and REFRESH_TOKEN_TTL_MS
abbrev pub refresh_token_bytes : ℕ
refresh_token_bytes = 64

abbrev pub refresh_token_ttl_ms : ℕ
refresh_token_ttl_ms = 30 * 24 * 60 * 60 * 1000

-- The result of `validateAndRotate`.
pub data RefreshResult : Type 0 where
  invalid reused expired : RefreshResult
  valid : (user_id : ℕ) (raw_token : String) (expires_at : ℕ) → RefreshResult

-- What `issue` returns.
pub record Issued : Type 0 where
  pub raw_token : String
  pub expires_at : ℕ

-- `data: { revokedAt: new Date() }`
abbrev pub revoked : ℕ → RefreshToken → RefreshToken
revoked t r = record r { revoked_at = some t }

-- `where: { userId, revokedAt: null }`
abbrev pub active_of : ℕ → RefreshToken → Bool
active_of user_id r = r.user_id == user_id && not (is_some r.revoked_at)

-- The unique columns are `id` and `tokenHash`.
abbrev pub clash : RefreshToken → RefreshToken → Bool
clash a b = if a.id == b.id then Bool.true else str_eq b.token_hash a.token_hash

-- The row that `create` writes: `revokedAt` is null by default.
abbrev pub new_row : ℕ → ℕ → String → ℕ → RefreshToken
new_row id user_id token_hash expires_at = record {
  id = id;
  user_id = user_id;
  token_hash = token_hash;
  expires_at = expires_at;
  revoked_at = none;
}

module _ (env : Env) where
  -- The repository.
  unfoldable pub revoke_all_for_user : ℕ → Action (Unit {0})
  revoke_all_for_user user_id = do
    t ← now env
    modify λ w. record w {
      refresh_tokens = env.db.update_many (active_of user_id) (revoked t) w.refresh_tokens;
    }

  -- The outcome of an `update`: P2025 where there was no row.
  abbrev pub store_updated : Option (RefreshToken × List RefreshToken) → Action (Unit {0})
  store_updated none = throw (prisma p2025)
  store_updated (some (_, rows)) = modify λ w. record w { refresh_tokens = rows }

  unfoldable pub revoke : ℕ → Action (Unit {0})
  revoke id = do
    t ← now env
    rows ← gets (λ w. w.refresh_tokens)
    store_updated (env.db.update (λ r. r.id == id) (revoked t) rows)

  unfoldable pub find_by_token_hash : String → Action (Option RefreshToken)
  find_by_token_hash token_hash =
      gets (λ w. env.db.find_first (λ r. str_eq r.token_hash token_hash) w.refresh_tokens)

  abbrev pub store_created : Option (List RefreshToken) → Action (Unit {0})
  store_created none = throw (prisma p2002)
  store_created (some rows) = modify λ w. record w { refresh_tokens = rows }

  unfoldable pub create : ℕ → String → ℕ → Action (Unit {0})
  create user_id token_hash expires_at = do
    id ← new_id env
    rows ← gets (λ w. w.refresh_tokens)
    store_created (env.db.create clash (new_row id user_id token_hash expires_at) rows)

  -- The service.
  unfoldable pub hash_token : String → String
  hash_token token = env.sha256 token

  unfoldable pub issue : ℕ → Action Issued
  issue user_id = do
    raw_token ← random_bytes_hex env refresh_token_bytes
    let token_hash = hash_token raw_token
    t ← now env
    let expires_at = t + refresh_token_ttl_ms
    create user_id token_hash expires_at
    pure (record { raw_token = raw_token; expires_at = expires_at })

  abbrev pub revoke_existing : Option RefreshToken → Action (Unit {0})
  revoke_existing none = pure tt
  revoke_existing (some token) = revoke token.id

  -- `revokeByRawToken` looks the raw token up among the hashes, as the source does.
  pub revoke_by_raw_token : String → Action (Unit {0})
  revoke_by_raw_token raw_token = do
    existing_token ← find_by_token_hash raw_token
    revoke_existing existing_token

  -- `validateAndRotate` from the found row on: each test reads the clock when the code does.
  unfoldable pub rotate : RefreshToken → Action RefreshResult
  rotate token = do
    t ← now env
    if ltb token.expires_at t then pure expired else do
      revoke token.id
      new ← issue token.user_id
      pure (valid token.user_id new.raw_token new.expires_at)

  unfoldable pub validate_found : Option RefreshToken → Action RefreshResult
  validate_found none = pure invalid
  validate_found (some token) =
      if is_some token.revoked_at
      then revoke_all_for_user token.user_id >> pure reused
      else rotate token

  unfoldable pub validate_and_rotate : String → Action RefreshResult
  validate_and_rotate raw_token = do
    existing_token ← find_by_token_hash (hash_token raw_token)
    validate_found existing_token
