-- ===== src/RefreshTokens/Spent.antt =====
-- Proofs about sequences of calls of src/module/refresh-tokens.
use mathlib.Core.Option
use lexi_ledger_backend.Base.{
  ℕ, ◌+◌, String, ◌≡◌, ◌∙◌, ap, Bool, Option, none, some, List, [], ◌∷◌, map, arith, ◌==◌, str_eq,
  find?, patch, find?-map, find?-append_some, if◌then◌else◌, any, Bool-cases, ltb, is_some,
  Option-cases, inl, inr,
}
use lexi_ledger_backend.Schema.{RefreshToken}
use lexi_ledger_backend.Platform.{World, ok, Env, now, random_bytes_hex}
use lexi_ledger_backend.Platform.Keeps.{Keeps, Keeps-pure, Keeps-if, Keeps-bind}
use lexi_ledger_backend.RefreshTokens.{
  reused, active_of, revoked, clash, new_row, rotate, validate_found, validate_and_rotate,
  revoke_by_raw_token, revoke, revoke_all_for_user, create, issue, store_updated, store_created,
  find_by_token_hash, refresh_token_bytes, refresh_token_ttl_ms, hash_token, revoke_existing,
  expired, valid, invalid,
}
use lexi_ledger_backend.RefreshTokens.Rotation.{validate_and_rotate_reused}

module _ (env : Env) where
  -- One call of the service; the result is what the caller sees, and the world goes on.
  pub data Step (w : World) (w' : World) : Type 0 where
    issue_step : (user_id : ℕ) → w' ≡ (issue env user_id w).1 → Step w w'
    rotate_step : (raw : String) → w' ≡ (validate_and_rotate env raw w).1 → Step w w'
    logout_step : (raw : String) → w' ≡ (revoke_by_raw_token env raw w).1 → Step w w'
    logout_all_step : (user_id : ℕ) → w' ≡ (revoke_all_for_user env user_id w).1 → Step w w'

  pub data Reach (w : World) : World → Type 0 where
    here : Reach w w
    next : {u v : World} → Reach w u → Step u v → Reach w v

  module _ (raw : String) where
    abbrev pub finds : RefreshToken → Bool
    finds x = str_eq x.token_hash (env.sha256 raw)

    abbrev pub IsSpentIn : List RefreshToken → Type 0
    IsSpentIn rows =
        (r : RefreshToken) × (t : ℕ) × (find? finds rows ≡ some r) × (r.revoked_at ≡ some t)

    -- The stored token of `raw` is revoked.
    abbrev pub IsSpent : World → Type 0
    IsSpent w = IsSpentIn w.refresh_tokens

    -- Revoking some rows keeps it.
    revoked_still :
        (p : RefreshToken → Bool) (t : ℕ) (rows : List RefreshToken)
        → IsSpentIn rows
        → IsSpentIn (map (patch p (revoked t)) rows)
    revoked_still p t rows (r, s, found, spent) = (
      patch p (revoked t) r,
      if p r then t else s,
      find?-map finds (patch p (revoked t)) rows (λ x. ground arith)
          ∙ ap (Option.map (patch p (revoked t))) found,
      ground arith,
    )

    Keeps-now : Keeps IsSpent (now env)
    Keeps-now = record { at = λ w h. h }

    Keeps-revoke_all : (user_id : ℕ) → Keeps IsSpent (revoke_all_for_user env user_id)
    unfolding revoke_all_for_user
    Keeps-revoke_all user_id = record {
      at = λ w h.
          rw env.db.update_many_law
            (revoked_still (active_of user_id) (env.clock w.reads) w.refresh_tokens h);
    }

    -- Whatever `update` answers, the token of `raw` is still spent in what is stored.
    Keeps-store_updated :
        (p : RefreshToken → Bool) (t : ℕ) (w : World)
        → IsSpent w
        → IsSpent (store_updated env (env.db.update p (revoked t) w.refresh_tokens) w).1
    Keeps-store_updated p t w h = elim (Option-cases (find? p w.refresh_tokens)) [
      | inl missing ↦ rw (env.db.update_law, missing, store_updated) h
      | inr (r, found) ↦
          rw (env.db.update_law, found, store_updated) (revoked_still p t w.refresh_tokens h)
    ]

    Keeps-revoke : (id : ℕ) → Keeps IsSpent (revoke env id)
    unfolding revoke
    Keeps-revoke id = record {
      at = λ w h.
          Keeps-store_updated (λ r. r.id == id) (env.clock w.reads)
            (record w { reads = w.reads + 1 }) h;
    }

    Keeps-store_created :
        (row : RefreshToken) (w : World)
        → IsSpent w
        → IsSpent (store_created env (env.db.create clash row w.refresh_tokens) w).1
    Keeps-store_created row w (r, t, found, spent) =
        elim (Bool-cases (any (clash row) w.refresh_tokens)) [
          | inl e ↦ rw (env.db.create_law, e, store_created) (r, t, found, spent)
          | inr e ↦
              rw (env.db.create_law, e, store_created)
                (r, t, find?-append_some finds w.refresh_tokens (row ∷ []) found, spent)
        ]

    Keeps-create :
        (user_id : ℕ) (hash : String) (expires_at : ℕ)
        → Keeps IsSpent (create env user_id hash expires_at)
    unfolding create
    Keeps-create user_id hash expires_at = record {
      at = λ w h.
          Keeps-store_created (new_row (env.uuid w.ids) user_id hash expires_at)
            (record w { ids = w.ids + 1 }) h;
    }

    Keeps-draw : (n : ℕ) → Keeps IsSpent (random_bytes_hex env n)
    Keeps-draw n = record { at = λ w h. h }

    Keeps-issue : (user_id : ℕ) → Keeps IsSpent (issue env user_id)
    unfolding issue
    Keeps-issue user_id = Keeps-bind _ _ (Keeps-draw refresh_token_bytes) λ raw_token.
        Keeps-bind _ _ Keeps-now λ t.
          Keeps-bind _ _
            (Keeps-create user_id (hash_token env raw_token) (t + refresh_token_ttl_ms))
            λ _.
              Keeps-pure (record { raw_token = raw_token; expires_at = t + refresh_token_ttl_ms })

    Keeps-find : (hash : String) → Keeps IsSpent (find_by_token_hash env hash)
    unfolding find_by_token_hash
    Keeps-find hash = record { at = λ w h. h }

    Keeps-rotate : (r : RefreshToken) → Keeps IsSpent (rotate env r)
    unfolding rotate
    Keeps-rotate r = Keeps-bind _ _ Keeps-now λ t.
        Keeps-if (ltb r.expires_at t) _ _ (Keeps-pure expired) (
          Keeps-bind _ _ (Keeps-revoke r.id) λ _.
            Keeps-bind _ _ (Keeps-issue r.user_id)
              λ new. Keeps-pure (valid r.user_id new.raw_token new.expires_at))

    Keeps-validate_found : (o : Option RefreshToken) → Keeps IsSpent (validate_found env o)
    unfolding validate_found
    Keeps-validate_found none = Keeps-pure invalid
    Keeps-validate_found (some r) =
        Keeps-if (is_some r.revoked_at) _ _
          (Keeps-bind _ _ (Keeps-revoke_all r.user_id) λ _. Keeps-pure reused) (Keeps-rotate r)

    Keeps-revoke_existing : (o : Option RefreshToken) → Keeps IsSpent (revoke_existing env o)
    Keeps-revoke_existing none = Keeps-pure tt
    Keeps-revoke_existing (some r) = Keeps-revoke r.id

    Keeps-rotation : (other : String) → Keeps IsSpent (validate_and_rotate env other)
    unfolding validate_and_rotate
    Keeps-rotation other = Keeps-bind _ _ (Keeps-find (hash_token env other)) Keeps-validate_found

    Keeps-logout : (other : String) → Keeps IsSpent (revoke_by_raw_token env other)
    unfolding revoke_by_raw_token
    Keeps-logout other = Keeps-bind _ _ (Keeps-find other) Keeps-revoke_existing

    Step-IsSpent : {w w' : World} → Step w w' → IsSpent w → IsSpent w'
    Step-IsSpent (issue_step user_id e) h = rw e ((Keeps-issue user_id).at _ h)
    Step-IsSpent (rotate_step other e) h = rw e ((Keeps-rotation other).at _ h)
    Step-IsSpent (logout_step other e) h = rw e ((Keeps-logout other).at _ h)
    Step-IsSpent (logout_all_step user_id e) h = rw e ((Keeps-revoke_all user_id).at _ h)

    pub Reach-IsSpent : {w w' : World} → Reach w w' → IsSpent w → IsSpent w'
    Reach-IsSpent here h = h
    Reach-IsSpent (next r st) h = Step-IsSpent st (Reach-IsSpent r h)

    -- A revoked token is never accepted again: after any calls of the service, by anyone, it is
    -- answered with `reused`.
    pub spent_forever :
        {w w' : World} → Reach w w' → IsSpent w → (validate_and_rotate env raw w').0 ≡ ok reused
    spent_forever {w' = w'} r h =
        let (row, t, found, spent) = Reach-IsSpent r h in
        rw (validate_and_rotate_reused env raw w' found spent)
