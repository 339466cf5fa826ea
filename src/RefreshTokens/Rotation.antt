-- ===== src/RefreshTokens/Rotation.antt =====
-- Proofs about `validateAndRotate` and the revocations of src/module/refresh-tokens.
use mathlib.Core.Option
use lexi_ledger_backend.Base.{
  ℕ, ◌+◌, String, ◌≡◌, ◌⊎◌, refl, ◌∙◌, Bool, false, Option, none, some, List, [], ◌∷◌, ◌++◌, arith,
  ◌==◌, ==_refl, str_eq, eq_refl, ap, filter, filter-patch, not, find?, any, patch, find?-some_of,
  find?-map, find?-append_some, find?-append_none, any-map, All, ltb,
}
use lexi_ledger_backend.Schema.{RefreshToken}
use lexi_ledger_backend.Platform.{World, ok, Env}
use lexi_ledger_backend.RefreshTokens.{
  invalid, reused, expired, valid, active_of, revoked, clash, rotate, validate_found,
  validate_and_rotate, hash_token, revoke_by_raw_token, refresh_token_ttl_ms,
}
use lexi_ledger_backend.RefreshTokens.Queries.{
  all_revoked, one_revoked, issued_raw, issued_row, after_revoke_all, after_revoke, after_issue,
  revoke_all_for_user_lem, revoke_lem, find_by_token_hash_lem, issue_lem,
}

-- No token of the user is active.
abbrev pub HasNoSession : ℕ → World → Type 0
HasNoSession user_id w = All (λ r. active_of user_id r ≡ false) w.refresh_tokens

module _ (env : Env) where
  -- The stored token whose hash a raw token has.
  abbrev pub stored : String → World → Option RefreshToken
  stored raw w = find? (λ r. str_eq r.token_hash (env.sha256 raw)) w.refresh_tokens

  -- The world in which the new token of a rotation is issued.
  abbrev pub before_issue : RefreshToken → World → World
  before_issue r w = after_revoke env r.id (record w { reads = w.reads + 1 })

  -- The token is stored, active and not yet expired, and the row that `issue` is about to write
  -- has an id and a hash of its own.
  pub record IsUsable (raw : String) (r : RefreshToken) (w : World) : Type 0 where
    pub found : stored raw w ≡ some r
    pub active : r.revoked_at ≡ none
    pub in_time : ltb r.expires_at (env.clock w.reads) ≡ false
    pub fresh : any (clash (issued_row env r.user_id (before_issue r w))) w.refresh_tokens ≡ false

  validate_and_rotate_found :
      (raw : String) (w : World)
      → validate_and_rotate env raw w ≡ validate_found env (stored raw w) w
  unfolding validate_and_rotate hash_token
  validate_and_rotate_found raw w = ground (arith, find_by_token_hash_lem env (env.sha256 raw) w)

  clash-revoked :
      (row : RefreshToken) (p : RefreshToken → Bool) (t : ℕ) (x : RefreshToken)
      → clash row (patch p (revoked t) x) ≡ clash row x
  clash-revoked row p t x = ground arith

  pub validate_and_rotate_valid :
      (raw : String) (r : RefreshToken) (w : World)
      → IsUsable raw r w
      → validate_and_rotate env raw w ≡ (
        ok (
            valid r.user_id
              (issued_raw env (before_issue r w))
              (env.clock (w.reads + 2) + refresh_token_ttl_ms)),
        after_issue env r.user_id (before_issue r w),
      )
  unfolding validate_found rotate
  validate_and_rotate_valid raw r w h =
      let (_, same_id) =
        find?-some_of (λ x. str_eq x.token_hash (env.sha256 raw)) (λ x. x.id == r.id)
          w.refresh_tokens h.found (==_refl r.id) in
      rw (validate_and_rotate_found raw w, h.found)
        (ground (
          arith,
          h.active,
          h.in_time,
          revoke_lem env r.id (record w { reads = w.reads + 1 }) same_id,
          issue_lem env r.user_id (before_issue r w),
          any-map (clash (issued_row env r.user_id (before_issue r w)))
              (patch (λ x. x.id == r.id) (revoked (env.clock (w.reads + 1)))) w.refresh_tokens
              (clash-revoked (issued_row env r.user_id (before_issue r w)) (λ x. x.id == r.id)
                (env.clock (w.reads + 1))),
          h.fresh,
        ))

  -- The lookup by a hash, after one token is revoked and another is added.
  stored_after :
      (raw : String) (id t : ℕ) (row : RefreshToken) (rows : List RefreshToken) {r : RefreshToken}
      → find? (λ x. str_eq x.token_hash (env.sha256 raw)) rows ≡ some r
      → find? (λ x. str_eq x.token_hash (env.sha256 raw)) (one_revoked t id rows ++ row ∷ [])
        ≡ some (patch (λ x. x.id == id) (revoked t) r)
  stored_after raw id t row rows {r} h =
      find?-append_some (λ x. str_eq x.token_hash (env.sha256 raw)) (one_revoked t id rows)
        (row ∷ [])
        (find?-map (λ x. str_eq x.token_hash (env.sha256 raw)) (patch (λ x. x.id == id) (revoked t))
            rows (λ x. ground arith)
          ∙ ap (Option.map (patch (λ x. x.id == id) (revoked t))) h)

  hash_free :
      (row : RefreshToken) (rows : List RefreshToken)
      → any (clash row) rows ≡ false
      → find? (λ x. str_eq x.token_hash row.token_hash) rows ≡ none
  hash_free row [] h = refl
  hash_free row (x ∷ rows) h = ground (arith, hash_free row rows)

  hash_free_revoked :
      (row : RefreshToken) (rows : List RefreshToken) (id t : ℕ)
      → any (clash row) rows ≡ false
      → any (clash row) (one_revoked t id rows) ≡ false
  hash_free_revoked row rows id t h =
      any-map (clash row) (patch (λ x. x.id == id) (revoked t)) rows
        (clash-revoked row (λ x. x.id == id) t)
      ∙ h

  -- A token that is stored, active and in time is exchanged for a new one of the same user, if
  -- the new row has an id and a hash of its own: the answer carries the new raw token, which is
  -- stored by its hash, active, with a life of thirty days; the old token is now found revoked.
  pub rotation_replaces :
      (raw : String) (r : RefreshToken) (w : World)
      → IsUsable raw r w
      → let (result, w') = validate_and_rotate env raw w in
        (result
          ≡ ok (
              valid r.user_id
                (issued_raw env (before_issue r w))
                (env.clock (w.reads + 2) + refresh_token_ttl_ms)))
        × (stored (issued_raw env (before_issue r w)) w'
            ≡ some (issued_row env r.user_id (before_issue r w)))
        × (stored raw w' ≡ some (revoked (env.clock (w.reads + 1)) r))
  rotation_replaces raw r w h =
      let row = issued_row env r.user_id (before_issue r w) in
      rw (validate_and_rotate_valid raw r w h) (
        ground arith,
        find?-append_none (λ x. str_eq x.token_hash row.token_hash)
              (one_revoked (env.clock (w.reads + 1)) r.id w.refresh_tokens) (row ∷ [])
              (hash_free row _
                (hash_free_revoked row w.refresh_tokens r.id (env.clock (w.reads + 1)) h.fresh))
            ∙ ground (arith, eq_refl row.token_hash),
        stored_after raw r.id (env.clock (w.reads + 1)) row w.refresh_tokens h.found ∙ ground arith,
      )

  -- The rows of other users.
  abbrev pub of_others : ℕ → World → List RefreshToken
  of_others user_id w = filter (λ x. not (x.user_id == user_id)) w.refresh_tokens

  all_revoked-HasNoSession :
      (user_id t : ℕ) (rows : List RefreshToken)
      → All (λ r. active_of user_id r ≡ false) (all_revoked t user_id rows)
  all_revoked-HasNoSession user_id t [] = tt
  all_revoked-HasNoSession user_id t (x ∷ rows) =
      (ground arith, all_revoked-HasNoSession user_id t rows)

  -- Revoking all tokens of a user leaves the user no active token, and the rows of others as
  -- they were.
  pub revoke_all_ends_sessions :
      (user_id : ℕ) (w : World)
      → HasNoSession user_id (after_revoke_all env user_id w)
        × (of_others user_id (after_revoke_all env user_id w) ≡ of_others user_id w)
  revoke_all_ends_sessions user_id w = (
    all_revoked-HasNoSession user_id (env.clock w.reads) w.refresh_tokens,
    filter-patch (active_of user_id) (λ x. not (x.user_id == user_id)) (revoked (env.clock w.reads))
        w.refresh_tokens (λ x e. ground arith),
  )

  pub validate_and_rotate_reused :
      (raw : String) {r : RefreshToken} {t : ℕ} (w : World)
      → stored raw w ≡ some r
      → r.revoked_at ≡ some t
      → validate_and_rotate env raw w ≡ (ok reused, after_revoke_all env r.user_id w)
  unfolding validate_found
  validate_and_rotate_reused raw {r} w h e =
      rw (validate_and_rotate_found raw w, h)
        (ground (arith, e, revoke_all_for_user_lem env r.user_id w))

  -- A token that was revoked before is answered with `reused`: every token of its user is then
  -- revoked, so that no session is left, and the tokens of other users stay as they were.
  pub reuse_ends_sessions :
      (raw : String) (r : RefreshToken) (t : ℕ) (w : World)
      → stored raw w ≡ some r
      → r.revoked_at ≡ some t
      → let (result, w') = validate_and_rotate env raw w in
        (result ≡ ok reused)
        × HasNoSession r.user_id w'
        × (of_others r.user_id w' ≡ of_others r.user_id w)
  reuse_ends_sessions raw r t w h e =
      let (none_active, others) = revoke_all_ends_sessions r.user_id w in
      rw (validate_and_rotate_reused raw w h e) (refl, none_active, others)

  -- A usable token is good for one exchange: presented again right after, it is taken for stolen,
  -- and every session of its user ends, the one just issued included.
  pub second_use_ends_sessions :
      (raw : String) (r : RefreshToken) (w : World)
      → IsUsable raw r w
      → let (_, w') = validate_and_rotate env raw w in
        let (result, w'') = validate_and_rotate env raw w' in
        (result ≡ ok reused)
        × HasNoSession r.user_id w''
        × (of_others r.user_id w'' ≡ of_others r.user_id w')
  second_use_ends_sessions raw r w h =
      reuse_ends_sessions raw (revoked (env.clock (w.reads + 1)) r) (env.clock (w.reads + 1)) _
        (rotation_replaces raw r w h).2 refl

  validate_found_rejected :
      (o : Option RefreshToken) (w : World)
      → ((validate_found env o w).0 ≡ ok invalid) ⊎ ((validate_found env o w).0 ≡ ok expired)
      → (validate_found env o w).1.refresh_tokens ≡ w.refresh_tokens
  unfolding validate_found rotate
  validate_found_rejected none w h = refl
  validate_found_rejected (some r) w h = ground arith

  -- The answers `invalid` and `expired` leave every row as it was.
  pub rejection_changes_no_row :
      (raw : String) (w : World)
      → ((validate_and_rotate env raw w).0 ≡ ok invalid)
        ⊎ ((validate_and_rotate env raw w).0 ≡ ok expired)
      → (validate_and_rotate env raw w).1.refresh_tokens ≡ w.refresh_tokens
  rejection_changes_no_row raw w =
      rw (validate_and_rotate_found raw w) (validate_found_rejected (stored raw w) w)

  revoke_by_raw_token_unknown :
      (raw : String) (w : World)
      → find? (λ x. str_eq x.token_hash raw) w.refresh_tokens ≡ none
      → revoke_by_raw_token env raw w ≡ (ok tt, w)
  unfolding revoke_by_raw_token
  revoke_by_raw_token_unknown raw w e = ground (arith, find_by_token_hash_lem env raw w, e)

  -- `logout` looks the raw token up as if it were a hash. Unless some stored hash is the very text
  -- of the raw token, it changes nothing, and a usable token stays usable.
  pub revoke_by_raw_token_keeps_session :
      (raw : String) (r : RefreshToken) (w : World)
      → IsUsable raw r w
      → find? (λ x. str_eq x.token_hash raw) w.refresh_tokens ≡ none
      → (revoke_by_raw_token env raw w ≡ (ok tt, w))
        × IsUsable raw r (revoke_by_raw_token env raw w).1
  revoke_by_raw_token_keeps_session raw r w h e = rw (revoke_by_raw_token_unknown raw w e) (refl, h)
