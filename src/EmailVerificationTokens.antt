-- ===== src/EmailVerificationTokens.antt =====
-- src/module/email-verification-token: codes that confirm an email address.
pub mod Codes
pub mod Issue
pub mod Frame
use lexi_ledger_backend.Base.{
  ℕ, zero, suc, ◌+◌, ◌*◌, String, Bool, Option, none, some, List, ◌==◌, not, ◌&&◌, if◌then◌else◌,
  is_some, ltb, str_eq,
}
use lexi_ledger_backend.Schema.{OneTimeToken}
use lexi_ledger_backend.Platform.{
  World, Action, Result, ok, err, pure, gets, throw, modify, ◌>>=◌, ◌>>◌, error, prisma, p2002,
  p2025, Env, now, new_id,
}
use lexi_ledger_backend.OneTimeTokens.{
  used, active_of, clash, new_row, Issued, try_code, generate_six_digit_token,
}

-- EMAIL_VERIFICATION_TOKEN_TTL_MS and EMAIL_VERIFICATION_TOKEN_MAX_ISSUE_ATTEMPTS
abbrev pub email_verification_token_ttl_ms : ℕ
email_verification_token_ttl_ms = 24 * 60 * 60 * 1000

abbrev pub max_issue_attempts : ℕ
max_issue_attempts = 5

module _ (env : Env) where
  -- The repository.
  unfoldable pub invalidate_active_for_user : ℕ → Action (Unit {0})
  invalidate_active_for_user user_id = do
    t ← now env
    modify λ w. record w {
      email_verification_tokens =
          env.db.update_many (active_of user_id) (used t) w.email_verification_tokens;
    }

  abbrev pub store_updated : Option (OneTimeToken × List OneTimeToken) → Action (Unit {0})
  store_updated none = throw (prisma p2025)
  store_updated (some (_, rows)) = modify λ w. record w { email_verification_tokens = rows }

  pub mark_used : ℕ → Action (Unit {0})
  mark_used id = do
    t ← now env
    rows ← gets (λ w. w.email_verification_tokens)
    store_updated (env.db.update (λ r. r.id == id) (used t) rows)

  unfoldable pub find_by_token_hash : String → Action (Option OneTimeToken)
  find_by_token_hash token_hash =
      gets
        (λ w. env.db.find_first (λ r. str_eq r.token_hash token_hash) w.email_verification_tokens)

  abbrev pub store_created : Option (List OneTimeToken) → Action (Unit {0})
  store_created none = throw (prisma p2002)
  store_created (some rows) = modify λ w. record w { email_verification_tokens = rows }

  unfoldable pub create : ℕ → String → ℕ → Action (Unit {0})
  create user_id token_hash expires_at = do
    id ← new_id env
    rows ← gets (λ w. w.email_verification_tokens)
    store_created (env.db.create clash (new_row id user_id token_hash expires_at) rows)

  -- The service.
  unfoldable pub hash_token : String → String
  hash_token token = env.sha256 token

  unfoldable pub verify_found : Option OneTimeToken → Action (Option ℕ)
  verify_found none = pure none
  verify_found (some existing) = if is_some existing.used_at then pure none else do
    t ← now env
    if ltb existing.expires_at t
        then pure none
        else do mark_used existing.id; pure (some existing.user_id)

  -- The user whose code it is, or null.
  unfoldable pub verify : String → Action (Option ℕ)
  verify raw_token = do existing ← find_by_token_hash (hash_token raw_token); verify_found existing

  -- The loop of `issue`, on the attempts left; `catch` lets a unique constraint error through to
  -- the next attempt.
  unfoldable pub issue_attempts : ℕ → ℕ → ℕ → Action Issued
  issue_attempts zero user_id expires_at =
      throw (error "Failed to generate a unique email verification token")
  issue_attempts (suc left) user_id expires_at = do
    raw_token ← generate_six_digit_token env
    try_code (record { raw_token = raw_token; expires_at = expires_at })
        (issue_attempts left user_id expires_at) (create user_id (hash_token raw_token) expires_at)

  unfoldable pub issue : ℕ → Action Issued
  issue user_id = do
    invalidate_active_for_user user_id
    t ← now env
    issue_attempts max_issue_attempts user_id (t + email_verification_token_ttl_ms)
