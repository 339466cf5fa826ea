-- ===== src/PasswordResetTokens/Issue.antt =====
-- Proofs about `issue` of src/module/password-reset-tokens and its attempts.
use lexi_ledger_backend.Base.{
  ℕ, zero, suc, ◌+◌, ◌*◌, ◌≤◌, ◌<◌, String, ◌≡◌, refl, ap, true, false, some, [], ◌∷◌, ◌++◌, arith,
  any, ltb, Bool-cases, inl, inr,
}
use lexi_ledger_backend.Base.Text.{to_string}
use lexi_ledger_backend.Schema.{OneTimeToken}
use lexi_ledger_backend.Platform.{World, Result, ok, err, error, prisma, p2002, Env}
use lexi_ledger_backend.OneTimeTokens.{clash, new_row, Issued, try_code_ok, try_code_clash}
use lexi_ledger_backend.OneTimeTokens.Rows.{found_after_create}
use lexi_ledger_backend.PasswordResetTokens.{
  password_reset_token_ttl_ms, max_issue_attempts, hash_token, verify, create, store_created,
  issue_attempts, issue,
}
use lexi_ledger_backend.PasswordResetTokens.Codes.{IsUsable, verify_usable}

module _ (env : Env) where
  module _ (user_id expires_at : ℕ) where
    -- The code that an attempt draws in a world, and the row that it tries to write.
    abbrev pub attempt_code : World → String
    attempt_code w = to_string (env.random_int w.draws 100000 1000000)

    abbrev pub attempt_row : World → OneTimeToken
    attempt_row w = new_row (env.uuid w.ids) user_id (env.sha256 (attempt_code w)) expires_at

    -- The world after an attempt that met a row.
    abbrev pub after_clash : World → World
    after_clash w = record w { draws = w.draws + 1; ids = w.ids + 1 }

    -- Each of the next attempts meets a row with its hash or id.
    abbrev pub EachClashes : ℕ → World → Type 0
    EachClashes zero w = Unit
    EachClashes (suc n) w =
        (any (clash (attempt_row w)) w.password_reset_tokens ≡ true) × EachClashes n (after_clash w)

    -- A code is a number of six digits in decimal.
    abbrev pub HasSixDigits : String → Type 0
    HasSixDigits raw_token = (k : ℕ) × (raw_token ≡ to_string k) × (100000 ≤ k) × (k < 1000000)

    -- What `n` attempts at most have done, by how they ended. With a code: the code has six digits,
    -- the one new row holds its hash, which no row held, and from one to n codes were drawn. With
    -- the error: no row is written, n codes were drawn, and each met a row with its hash or id.
    abbrev pub Attempted : ℕ → World → Result Issued × World → Type 0
    Attempted n w (ok i, w') =
        (id : ℕ) × (i.expires_at ≡ expires_at)
        × HasSixDigits i.raw_token
        × (w.draws < w'.draws)
        × (w'.draws ≤ w.draws + n)
        × (any (clash (new_row id user_id (env.sha256 i.raw_token) expires_at))
              w.password_reset_tokens
            ≡ false)
        × (w'.password_reset_tokens
            ≡ w.password_reset_tokens
              ++ new_row id user_id (env.sha256 i.raw_token) expires_at ∷ [])
    Attempted n w (err e, w') =
        (e ≡ error "Failed to generate a unique password reset token")
        × (w'.password_reset_tokens ≡ w.password_reset_tokens)
        × (w'.draws ≡ w.draws + n)
        × EachClashes n w

    create_clash :
        (hash : String) (w : World)
        → any (clash (new_row (env.uuid w.ids) user_id hash expires_at)) w.password_reset_tokens
          ≡ true
        → create env user_id hash expires_at w ≡ (err (prisma p2002), record w { ids = w.ids + 1 })
    unfolding create
    create_clash hash w h = rw (env.db.create_law, h, store_created)

    create_free :
        (hash : String) (w : World)
        → any (clash (new_row (env.uuid w.ids) user_id hash expires_at)) w.password_reset_tokens
          ≡ false
        → create env user_id hash expires_at w ≡ (
          ok tt,
          record w {
            password_reset_tokens =
                w.password_reset_tokens ++ new_row (env.uuid w.ids) user_id hash expires_at ∷ [];
            ids = w.ids + 1;
          },
        )
    unfolding create
    create_free hash w h = rw (env.db.create_law, h, store_created)

    Attempted-suc :
        (n : ℕ) (w : World) (result : Result Issued × World)
        → any (clash (attempt_row w)) w.password_reset_tokens ≡ true
        → Attempted n (after_clash w) result
        → Attempted (suc n) w result
    Attempted-suc n w (ok i, w') h (id, expiry, digits, more, few, free, rows) =
        (id, expiry, digits, omega arith, omega arith, free, rows)
    Attempted-suc n w (err e, w') h (message, same, drawn, clashes) =
        (message, same, omega arith, (h, clashes))

    six_digits : (k : ℕ) → HasSixDigits (to_string (env.random_int k 100000 1000000))
    six_digits k =
        let (lo, hi) = env.random_int_law k 100000 1000000 (omega arith) in
        (env.random_int k 100000 1000000, refl, lo, hi)

    issue_attempts-Attempted :
        (n : ℕ) (w : World) → Attempted n w (issue_attempts env n user_id expires_at w)
    unfolding issue_attempts hash_token
    issue_attempts-Attempted zero w = (refl, refl, omega arith, tt)
    issue_attempts-Attempted (suc n) w =
        let raw = to_string (env.random_int w.draws 100000 1000000) in
        let drawn = record w { draws = w.draws + 1 } in
        elim (Bool-cases (
          any (clash (new_row (env.uuid w.ids) user_id (env.sha256 raw) expires_at))
            w.password_reset_tokens)) [
              | inl e ↦
                  rw
                    (try_code_clash (record { raw_token = raw; expires_at = expires_at })
                      (issue_attempts env n user_id expires_at)
                      (create env user_id (env.sha256 raw) expires_at) drawn (after_clash w)
                      (create_clash (env.sha256 raw) drawn e))
                    (Attempted-suc n w _ e (issue_attempts-Attempted n (after_clash w)))
              | inr e ↦
                  rw
                    (try_code_ok (record { raw_token = raw; expires_at = expires_at })
                      (issue_attempts env n user_id expires_at)
                      (create env user_id (env.sha256 raw) expires_at) drawn _
                      (create_free (env.sha256 raw) drawn e))
                    (env.uuid w.ids, refl, six_digits w.draws, omega arith, omega arith, e, refl)
            ]

  -- `issue` ends in one of two ways. With a code: the code is a number of six digits with fifteen
  -- minutes to live, no row held its hash, one row with it is added, and at most five codes were
  -- drawn. With the error: no row is added, five codes were drawn, and each met a row.
  pub issue-Attempted :
      (user_id : ℕ) (w : World)
      → Attempted user_id
          (env.clock w.reads + 15 * 60 * 1000)
          5
          (record w { reads = w.reads + 1 })
          (issue env user_id w)
  unfolding issue
  issue-Attempted user_id w =
      issue_attempts-Attempted user_id (env.clock w.reads + password_reset_token_ttl_ms)
        max_issue_attempts (record w { reads = w.reads + 1 })

  Attempted-IsUsable :
      (user_id expires_at n : ℕ) (w : World) {i : Issued} {w' : World}
      → Attempted user_id expires_at n w (ok i, w')
      → ltb i.expires_at (env.clock w'.reads) ≡ false
      → (r : OneTimeToken) × (r.user_id ≡ user_id) × IsUsable env i.raw_token r w'
  Attempted-IsUsable user_id expires_at n w {i} {w'} (id, expiry, _, _, _, free, rows) in_time =
      let row = new_row id user_id (env.sha256 i.raw_token) expires_at in
      (
        row,
        refl,
        record {
          found = rw rows (found_after_create row w.password_reset_tokens free);
          unused = refl;
          in_time = rw (← expiry) in_time;
        },
      )

  -- The code that `issue` returned has a row that can be used until it expires.
  pub issued-IsUsable :
      (user_id : ℕ) (w : World) {i : Issued} {w' : World}
      → issue env user_id w ≡ (ok i, w')
      → ltb i.expires_at (env.clock w'.reads) ≡ false
      → (r : OneTimeToken) × (r.user_id ≡ user_id) × IsUsable env i.raw_token r w'
  issued-IsUsable user_id w {i} {w'} e in_time =
      Attempted-IsUsable user_id (env.clock w.reads + password_reset_token_ttl_ms)
        max_issue_attempts (record w { reads = w.reads + 1 }) {i = i} {w' = w'}
        (rw e at (issue-Attempted user_id w)) in_time

  Attempted-expiry :
      (user_id expires_at n : ℕ) (w : World) (i : Issued) (w' : World)
      → Attempted user_id expires_at n w (ok i, w')
      → i.expires_at ≡ expires_at
  Attempted-expiry user_id expires_at n w i w' (id, same, _, _, _, _, _) = same

  pub issued_expiry :
      (user_id : ℕ) (w : World) {i : Issued} {w' : World}
      → issue env user_id w ≡ (ok i, w')
      → i.expires_at ≡ env.clock w.reads + password_reset_token_ttl_ms
  issued_expiry user_id w {i} {w'} e =
      Attempted-expiry user_id (env.clock w.reads + password_reset_token_ttl_ms) max_issue_attempts
        (record w { reads = w.reads + 1 }) i w' (rw e at (issue-Attempted user_id w))

  -- A code that `issue` returned, presented before its expiry, is accepted for the user that it
  -- was issued to.
  pub issued_code_accepted :
      (user_id : ℕ) (w : World) {i : Issued} {w' : World}
      → issue env user_id w ≡ (ok i, w')
      → ltb i.expires_at (env.clock w'.reads) ≡ false
      → (verify env i.raw_token w').0 ≡ ok (some user_id)
  issued_code_accepted user_id w e in_time =
      let (r, owner, usable) = issued-IsUsable user_id w e in_time in
      rw (verify_usable env _ r _ usable) (ap (λ u. ok (some u)) owner)
