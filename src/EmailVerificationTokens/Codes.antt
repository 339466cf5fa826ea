-- ===== src/EmailVerificationTokens/Codes.antt =====
-- Proofs about `verify` of src/module/email-verification-token.
use lexi_ledger_backend.Base.{
  ℕ, ◌+◌, String, ◌≡◌, refl, ◌∙◌, ap, false, Option, none, some, map, arith, ◌==◌, ==_refl, str_eq,
  find?, find?-some_of, patch, ltb, not, filter, filter-patch,
}
use lexi_ledger_backend.Schema.{OneTimeToken}
use lexi_ledger_backend.Platform.{World, ok, Env}
use lexi_ledger_backend.OneTimeTokens.{used}
use lexi_ledger_backend.OneTimeTokens.Rows.{found_after_patch}
use lexi_ledger_backend.EmailVerificationTokens.{
  hash_token, find_by_token_hash, mark_used, verify_found, verify,
}

module _ (env : Env) where
  -- The stored code whose hash a raw code has.
  abbrev pub stored : String → World → Option OneTimeToken
  stored raw w = find? (λ r. str_eq r.token_hash (env.sha256 raw)) w.email_verification_tokens

  -- The world after a code is used: its row is marked.
  abbrev pub after_use : OneTimeToken → World → World
  after_use r w = record w {
    email_verification_tokens =
        map (patch (λ x. x.id == r.id) (used (env.clock (w.reads + 1))))
          w.email_verification_tokens;
    reads = w.reads + 2;
  }

  -- The code is stored, not used, and not yet expired.
  pub record IsUsable (raw : String) (r : OneTimeToken) (w : World) : Type 0 where
    pub found : stored raw w ≡ some r
    pub unused : r.used_at ≡ none
    pub in_time : ltb r.expires_at (env.clock w.reads) ≡ false

  pub verify-stored :
      (raw : String) (w : World) → verify env raw w ≡ verify_found env (stored raw w) w
  unfolding verify hash_token find_by_token_hash
  verify-stored raw w = rw env.db.find_first_law

  mark_used_lem :
      (id : ℕ) (w : World) {r : OneTimeToken}
      → find? (λ x. x.id == id) w.email_verification_tokens ≡ some r
      → mark_used env id w ≡ (
        ok tt,
        record w {
          email_verification_tokens =
              map (patch (λ x. x.id == id) (used (env.clock w.reads))) w.email_verification_tokens;
          reads = w.reads + 1;
        },
      )
  unfolding mark_used
  mark_used_lem id w h = rw (env.db.update_law, h)

  pub verify_usable :
      (raw : String) (r : OneTimeToken) (w : World)
      → IsUsable raw r w
      → verify env raw w ≡ (ok (some r.user_id), after_use r w)
  unfolding verify_found
  verify_usable raw r w h =
      let (_, same_id) =
        find?-some_of (λ x. str_eq x.token_hash (env.sha256 raw)) (λ x. x.id == r.id)
          w.email_verification_tokens h.found (==_refl r.id) in
      rw (verify-stored raw w, h.found)
        (ground (
          arith,
          h.unused,
          h.in_time,
          mark_used_lem r.id (record w { reads = w.reads + 1 }) same_id,
        ))

  -- A code that is used is refused.
  pub verify_used :
      (raw : String) (w : World) {r : OneTimeToken} {t : ℕ}
      → stored raw w ≡ some r
      → r.used_at ≡ some t
      → verify env raw w ≡ (ok none, w)
  unfolding verify_found
  verify_used raw w h e = rw (verify-stored raw w, h) (ground (arith, e))

  pub found_after_use :
      (raw : String) (r : OneTimeToken) (w : World)
      → IsUsable raw r w
      → stored raw (after_use r w) ≡ some (used (env.clock (w.reads + 1)) r)
  found_after_use raw r w h =
      found_after_patch (env.sha256 raw) (λ x. x.id == r.id) (env.clock (w.reads + 1))
        w.email_verification_tokens h.found
      ∙ ground arith

  -- A usable code names its user, and is refused from then on; no code but this one is spent.
  pub code_verifies_once :
      (raw : String) (r : OneTimeToken) (w : World)
      → IsUsable raw r w
      → let (result, w') = verify env raw w in
        (result ≡ ok (some r.user_id))
        × (filter (λ x. not (x.id == r.id)) w'.email_verification_tokens
            ≡ filter (λ x. not (x.id == r.id)) w.email_verification_tokens)
        × ((verify env raw w').0 ≡ ok none)
  code_verifies_once raw r w h =
      let found : stored raw (after_use r w) ≡ some (used (env.clock (w.reads + 1)) r) =
        found_after_use raw r w h in
      rw (verify_usable raw r w h) (
        refl,
        filter-patch (λ x. x.id == r.id) (λ x. not (x.id == r.id)) (used (env.clock (w.reads + 1)))
            w.email_verification_tokens (λ x e. ground arith),
        ap (λ x. x.0) (verify_used raw (after_use r w) found refl),
      )

  verify_found_refused :
      (o : Option OneTimeToken) (w : World)
      → (verify_found env o w).0 ≡ ok none
      → (verify_found env o w).1.email_verification_tokens ≡ w.email_verification_tokens
  unfolding verify_found
  verify_found_refused none w h = refl
  verify_found_refused (some r) w h = ground arith

  -- A code that is refused, because it is unknown, used or expired, verifies nothing and changes
  -- no row.
  pub refusal_verifies_nothing :
      (raw : String) (w : World)
      → (verify env raw w).0 ≡ ok none
      → (verify env raw w).1.email_verification_tokens ≡ w.email_verification_tokens
  refusal_verifies_nothing raw w = rw (verify-stored raw w) (verify_found_refused (stored raw w) w)
