-- ===== src/RefreshTokens/Queries.antt =====
-- What each call of the repository and of `issue` of src/module/refresh-tokens does to the world.
use lexi_ledger_backend.Base.{
  ℕ, ◌+◌, String, ◌≡◌, false, some, List, [], ◌∷◌, ◌++◌, map, arith, ◌==◌, str_eq, find?, any,
  patch,
}
use lexi_ledger_backend.Schema.{RefreshToken}
use lexi_ledger_backend.Platform.{World, ok, Env}
use lexi_ledger_backend.RefreshTokens.{
  active_of, revoked, clash, new_row, refresh_token_bytes, refresh_token_ttl_ms, Issued,
  revoke_all_for_user, revoke, find_by_token_hash, create, hash_token, issue,
}

-- The rows once every active token of a user is revoked at `t`, and once one token is.
abbrev pub all_revoked : ℕ → ℕ → List RefreshToken → List RefreshToken
all_revoked t user_id rows = map (patch (active_of user_id) (revoked t)) rows

abbrev pub one_revoked : ℕ → ℕ → List RefreshToken → List RefreshToken
one_revoked t id rows = map (patch (λ r. r.id == id) (revoked t)) rows

module _ (env : Env) where
  -- The row that `issue` writes in a world, and the raw token that it returns.
  abbrev pub issued_raw : World → String
  issued_raw w = env.random_hex w.draws refresh_token_bytes

  abbrev pub issued_row : ℕ → World → RefreshToken
  issued_row user_id w =
      new_row (env.uuid w.ids) user_id (env.sha256 (issued_raw w))
        (env.clock w.reads + refresh_token_ttl_ms)

  -- The worlds after each call that succeeds.
  abbrev pub after_revoke_all : ℕ → World → World
  after_revoke_all user_id w = record w {
    refresh_tokens = all_revoked (env.clock w.reads) user_id w.refresh_tokens;
    reads = w.reads + 1;
  }

  abbrev pub after_revoke : ℕ → World → World
  after_revoke id w = record w {
    refresh_tokens = one_revoked (env.clock w.reads) id w.refresh_tokens;
    reads = w.reads + 1;
  }

  abbrev pub after_issue : ℕ → World → World
  after_issue user_id w = record w {
    refresh_tokens = w.refresh_tokens ++ issued_row user_id w ∷ [];
    reads = w.reads + 1;
    draws = w.draws + 1;
    ids = w.ids + 1;
  }

  abbrev pub issued : World → Issued
  issued w = record {
    raw_token = issued_raw w;
    expires_at = env.clock w.reads + refresh_token_ttl_ms;
  }

  pub revoke_all_for_user_lem :
      (user_id : ℕ) (w : World)
      → revoke_all_for_user env user_id w ≡ (ok tt, after_revoke_all user_id w)
  unfolding revoke_all_for_user
  revoke_all_for_user_lem user_id w = rw env.db.update_many_law

  pub revoke_lem :
      (id : ℕ) (w : World) {r : RefreshToken}
      → find? (λ x. x.id == id) w.refresh_tokens ≡ some r
      → revoke env id w ≡ (ok tt, after_revoke id w)
  unfolding revoke
  revoke_lem id w h = rw (env.db.update_law, h)

  pub find_by_token_hash_lem :
      (token_hash : String) (w : World)
      → find_by_token_hash env token_hash w
        ≡ (ok (find? (λ r. str_eq r.token_hash token_hash) w.refresh_tokens), w)
  unfolding find_by_token_hash
  find_by_token_hash_lem token_hash w = rw env.db.find_first_law

  pub issue_lem :
      (user_id : ℕ) (w : World)
      → any (clash (issued_row user_id w)) w.refresh_tokens ≡ false
      → issue env user_id w ≡ (ok (issued w), after_issue user_id w)
  unfolding issue create hash_token
  issue_lem user_id w h =
      ground (arith, env.db.create_law clash (issued_row user_id w) w.refresh_tokens)
