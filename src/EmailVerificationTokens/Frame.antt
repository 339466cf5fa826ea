-- ===== src/EmailVerificationTokens/Frame.antt =====
-- Proofs about the tables that `issue` of src/module/email-verification-token does not touch.
use lexi_ledger_backend.Base.{ℕ, zero, suc, ◌+◌, String, Option, none, some, List}
use lexi_ledger_backend.Schema.{OneTimeToken}
use lexi_ledger_backend.Platform.{World, Env, now}
use lexi_ledger_backend.Platform.Keeps.{Keeps, Keeps-throw, Keeps-bind}
use lexi_ledger_backend.OneTimeTokens.Rows.{SameElsewhere}
use lexi_ledger_backend.OneTimeTokens.{generate_six_digit_token, clash, new_row, Keeps-try_code}
use lexi_ledger_backend.EmailVerificationTokens.{
  invalidate_active_for_user, store_created, create, hash_token, issue_attempts, issue,
  max_issue_attempts, email_verification_token_ttl_ms,
}

module _ (env : Env) (before : World) where
  Keeps-invalidate :
      (user_id : ℕ) → Keeps (SameElsewhere before) (invalidate_active_for_user env user_id)
  unfolding invalidate_active_for_user
  Keeps-invalidate user_id = record { at = λ w h. record { users = h.users; sent = h.sent } }

  Keeps-now : Keeps (SameElsewhere before) (now env)
  Keeps-now = record { at = λ w h. record { users = h.users; sent = h.sent } }

  stored_SameElsewhere :
      (o : Option (List OneTimeToken)) (w : World)
      → SameElsewhere before w
      → SameElsewhere before (store_created env o w).1
  stored_SameElsewhere none w h = h
  stored_SameElsewhere (some rows) w h = record { users = h.users; sent = h.sent }

  Keeps-create :
      (user_id : ℕ) (hash : String) (expires_at : ℕ)
      → Keeps (SameElsewhere before) (create env user_id hash expires_at)
  unfolding create
  Keeps-create user_id hash expires_at = record {
    at = λ w h.
        stored_SameElsewhere
          (env.db.create clash (new_row (env.uuid w.ids) user_id hash expires_at)
            w.email_verification_tokens)
          (record w { ids = w.ids + 1 }) (record { users = h.users; sent = h.sent });
  }

  Keeps-generate : Keeps (SameElsewhere before) (generate_six_digit_token env)
  Keeps-generate = record { at = λ w h. record { users = h.users; sent = h.sent } }

  Keeps-attempts :
      (n user_id expires_at : ℕ)
      → Keeps (SameElsewhere before) (issue_attempts env n user_id expires_at)
  unfolding issue_attempts
  Keeps-attempts zero user_id expires_at = Keeps-throw _
  Keeps-attempts (suc n) user_id expires_at = Keeps-bind _ _ Keeps-generate λ raw.
      Keeps-try_code (record { raw_token = raw; expires_at = expires_at }) _ _
        (Keeps-attempts n user_id expires_at) (Keeps-create user_id (hash_token env raw) expires_at)

  pub Keeps-issue : (user_id : ℕ) → Keeps (SameElsewhere before) (issue env user_id)
  unfolding issue
  Keeps-issue user_id = Keeps-bind _ _ (Keeps-invalidate user_id) λ _.
      Keeps-bind _ _ Keeps-now
        λ t. Keeps-attempts max_issue_attempts user_id (t + email_verification_token_ttl_ms)
