-- ===== src/PasswordResetTokens/Codes.antt =====
-- Proofs about `verify` of src/module/password-reset-tokens.
use lexi_ledger_backend.Base.{
  ℕ, ◌+◌, String, ◌≡◌, refl, ◌∙◌, ap, false, Option, none, some, List, map, arith, ◌==◌, ==_refl,
  str_eq, find?, find?-some_of, patch, ltb, not, ◌&&◌,
}
use lexi_ledger_backend.Schema.{OneTimeToken}
use lexi_ledger_backend.Platform.{World, ok, Env}
use lexi_ledger_backend.OneTimeTokens.{used, active_of}
use lexi_ledger_backend.OneTimeTokens.Rows.{found_after_patch, HasNoCode, marked-HasNoCode}
use lexi_ledger_backend.PasswordResetTokens.{
  hash_token, find_by_token_hash, mark_as_used, invalidate_active_for_user, verify_found, verify,
}

module _ (env : Env) where
  -- The stored code whose hash a raw code has.
  abbrev pub stored : String → World → Option OneTimeToken
  stored raw w = find? (λ r. str_eq r.token_hash (env.sha256 raw)) w.password_reset_tokens

  -- The rows after a code is used: its row is marked, then the other active rows of its user.
  abbrev pub rows_after_use : OneTimeToken → World → List OneTimeToken
  rows_after_use r w =
      map
        (patch (λ x. active_of r.user_id x && not (x.id == r.id)) (used (env.clock (w.reads + 2))))
        (map (patch (λ x. x.id == r.id) (used (env.clock (w.reads + 1)))) w.password_reset_tokens)

  abbrev pub after_use : OneTimeToken → World → World
  after_use r w = record w { password_reset_tokens = rows_after_use r w; reads = w.reads + 3 }

  -- The code is stored, not used, and not yet expired.
  pub record IsUsable (raw : String) (r : OneTimeToken) (w : World) : Type 0 where
    pub found : stored raw w ≡ some r
    pub unused : r.used_at ≡ none
    pub in_time : ltb r.expires_at (env.clock w.reads) ≡ false

  pub verify-stored :
      (raw : String) (w : World) → verify env raw w ≡ verify_found env (stored raw w) w
  unfolding verify hash_token find_by_token_hash
  verify-stored raw w = rw env.db.find_first_law

  mark_as_used_lem :
      (id : ℕ) (w : World) {r : OneTimeToken}
      → find? (λ x. x.id == id) w.password_reset_tokens ≡ some r
      → mark_as_used env id w ≡ (
        ok tt,
        record w {
          password_reset_tokens =
              map (patch (λ x. x.id == id) (used (env.clock w.reads))) w.password_reset_tokens;
          reads = w.reads + 1;
        },
      )
  unfolding mark_as_used
  mark_as_used_lem id w h = rw (env.db.update_law, h)

  invalidate_lem :
      (user_id id : ℕ) (w : World)
      → invalidate_active_for_user env user_id id w ≡ (
        ok tt,
        record w {
          password_reset_tokens =
              map
                (patch (λ x. active_of user_id x && not (x.id == id)) (used (env.clock w.reads)))
                w.password_reset_tokens;
          reads = w.reads + 1;
        },
      )
  unfolding invalidate_active_for_user
  invalidate_lem user_id id w = rw env.db.update_many_law

  pub verify_usable :
      (raw : String) (r : OneTimeToken) (w : World)
      → IsUsable raw r w
      → verify env raw w ≡ (ok (some r.user_id), after_use r w)
  unfolding verify_found
  verify_usable raw r w h =
      let (_, same_id) =
        find?-some_of (λ x. str_eq x.token_hash (env.sha256 raw)) (λ x. x.id == r.id)
          w.password_reset_tokens h.found (==_refl r.id) in
      rw (verify-stored raw w, h.found)
        (ground (
          arith,
          h.unused,
          h.in_time,
          mark_as_used_lem r.id (record w { reads = w.reads + 1 }) same_id,
          invalidate_lem r.user_id r.id (record w {
            password_reset_tokens =
                map (patch (λ x. x.id == r.id) (used (env.clock (w.reads + 1))))
                  w.password_reset_tokens;
            reads = w.reads + 1 + 1;
          }),
        ))

  -- A code that is used is refused.
  pub verify_used :
      (raw : String) (w : World) {r : OneTimeToken} {t : ℕ}
      → stored raw w ≡ some r
      → r.used_at ≡ some t
      → verify env raw w ≡ (ok none, w)
  unfolding verify_found
  verify_used raw w h e = rw (verify-stored raw w, h) (ground (arith, e))

  found_after_use :
      (raw : String) (r : OneTimeToken) (w : World)
      → IsUsable raw r w
      → stored raw (after_use r w) ≡ some (used (env.clock (w.reads + 1)) r)
  found_after_use raw r w h =
      found_after_patch (env.sha256 raw) (λ x. active_of r.user_id x && not (x.id == r.id))
        (env.clock (w.reads + 2))
        (map (patch (λ x. x.id == r.id) (used (env.clock (w.reads + 1)))) w.password_reset_tokens)
        (found_after_patch (env.sha256 raw) (λ x. x.id == r.id) (env.clock (w.reads + 1))
          w.password_reset_tokens h.found)
      ∙ ground arith

  -- A usable code names its user; from then on the user has no active code, and the code itself
  -- is refused.
  pub code_used_once :
      (raw : String) (r : OneTimeToken) (w : World)
      → IsUsable raw r w
      → let (result, w') = verify env raw w in
        (result ≡ ok (some r.user_id))
        × HasNoCode r.user_id w'.password_reset_tokens
        × ((verify env raw w').0 ≡ ok none)
  code_used_once raw r w h =
      let found : stored raw (after_use r w) ≡ some (used (env.clock (w.reads + 1)) r) =
        found_after_use raw r w h in
      rw (verify_usable raw r w h) (
        refl,
        marked-HasNoCode r.user_id r.id (env.clock (w.reads + 1)) (env.clock (w.reads + 2))
            w.password_reset_tokens,
        ap (λ x. x.0) (verify_used raw (after_use r w) found refl),
      )

  verify_found_refused :
      (o : Option OneTimeToken) (w : World)
      → (verify_found env o w).0 ≡ ok none
      → (verify_found env o w).1.password_reset_tokens ≡ w.password_reset_tokens
  unfolding verify_found
  verify_found_refused none w h = refl
  verify_found_refused (some r) w h = ground arith

  -- A code that is refused, because it is unknown, used or expired, changes no row.
  pub refusal_changes_no_row :
      (raw : String) (w : World)
      → (verify env raw w).0 ≡ ok none
      → (verify env raw w).1.password_reset_tokens ≡ w.password_reset_tokens
  refusal_changes_no_row raw w = rw (verify-stored raw w) (verify_found_refused (stored raw w) w)
