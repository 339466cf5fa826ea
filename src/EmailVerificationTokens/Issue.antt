-- ===== src/EmailVerificationTokens/Issue.antt =====
-- Proofs about `issue` of src/module/email-verification-token and its attempts.
use lexi_ledger_backend.Base.{
  ℕ, zero, suc, ◌+◌, String, ◌≡◌, refl, sym, ap, true, false, some, [], ◌∷◌, ◌++◌, map, arith,
  ==_refl, any, patch, ltb, Bool-cases, inl, inr, filter, subst,
}
use lexi_ledger_backend.Base.Text
use lexi_ledger_backend.Base.Text.{to_string, length-to_string_six}
use lexi_ledger_backend.Schema.{OneTimeToken}
use lexi_ledger_backend.Platform.{World, Result, ok, err, error, prisma, p2002, Env}
use lexi_ledger_backend.OneTimeTokens.{
  used, active_of, clash, new_row, Issued, try_code_ok, try_code_clash,
}
use lexi_ledger_backend.OneTimeTokens.Rows.{
  found_after_create, HasNoCode, invalidated-HasNoCode, active_after_create,
}
use lexi_ledger_backend.EmailVerificationTokens.{
  email_verification_token_ttl_ms, max_issue_attempts, hash_token, invalidate_active_for_user,
  verify, create, store_created, issue_attempts, issue,
}
use lexi_ledger_backend.EmailVerificationTokens.Codes.{IsUsable, verify_usable}

module _ (env : Env) where
  module _ (user_id expires_at : ℕ) where
    -- The code that an attempt draws in a world, and the row that it tries to write.
    abbrev pub attempt_code : World → String
    attempt_code w = to_string (env.random_int w.draws 100000 1000000)

    abbrev pub attempt_row : World → OneTimeToken
    attempt_row w = new_row (env.uuid w.ids) user_id (env.sha256 (attempt_code w)) expires_at

    -- The world after an attempt that met a row.
    abbrev pub after_clash : World → World
    after_clash w = record w { draws = w.draws + 1; ids = w.ids + 1 }

    -- Each of the next attempts meets a row with its hash or id.
    abbrev pub EachClashes : ℕ → World → Type 0
    EachClashes zero w = Unit
    EachClashes (suc n) w =
        (any (clash (attempt_row w)) w.email_verification_tokens ≡ true)
        × EachClashes n (after_clash w)

    -- What the attempts have done, by how they ended. With a code: it has six characters, and the
    -- one new row holds its hash, which no row held. With the error: no row is written, and each
    -- of the attempts met a row with its hash or id.
    abbrev pub Attempted : ℕ → World → Result Issued × World → Type 0
    Attempted n w (ok i, w') =
        (id : ℕ) × (i.expires_at ≡ expires_at)
        × (Text.length i.raw_token ≡ 6)
        × (any (clash (new_row id user_id (env.sha256 i.raw_token) expires_at))
              w.email_verification_tokens
            ≡ false)
        × (w'.email_verification_tokens
            ≡ w.email_verification_tokens
              ++ new_row id user_id (env.sha256 i.raw_token) expires_at ∷ [])
    Attempted n w (err e, w') =
        (e ≡ error "Failed to generate a unique email verification token")
        × (w'.email_verification_tokens ≡ w.email_verification_tokens)
        × EachClashes n w

    create_clash :
        (hash : String) (w : World)
        → any (clash (new_row (env.uuid w.ids) user_id hash expires_at)) w.email_verification_tokens
          ≡ true
        → create env user_id hash expires_at w ≡ (err (prisma p2002), record w { ids = w.ids + 1 })
    unfolding create
    create_clash hash w h = rw (env.db.create_law, h, store_created)

    create_free :
        (hash : String) (w : World)
        → any (clash (new_row (env.uuid w.ids) user_id hash expires_at)) w.email_verification_tokens
          ≡ false
        → create env user_id hash expires_at w ≡ (
          ok tt,
          record w {
            email_verification_tokens =
                w.email_verification_tokens
                ++ new_row (env.uuid w.ids) user_id hash expires_at ∷ [];
            ids = w.ids + 1;
          },
        )
    unfolding create
    create_free hash w h = rw (env.db.create_law, h, store_created)

    Attempted-suc :
        (n : ℕ) (w : World) (result : Result Issued × World)
        → any (clash (attempt_row w)) w.email_verification_tokens ≡ true
        → Attempted n (after_clash w) result
        → Attempted (suc n) w result
    Attempted-suc n w (ok i, w') h k = k
    Attempted-suc n w (err e, w') h (message, same, clashes) = (message, same, (h, clashes))

    six_digits : (k : ℕ) → Text.length (to_string (env.random_int k 100000 1000000)) ≡ 6
    six_digits k =
        let (lo, hi) = env.random_int_law k 100000 1000000 (omega arith) in
        length-to_string_six (env.random_int k 100000 1000000) lo hi

    issue_attempts-Attempted :
        (n : ℕ) (w : World) → Attempted n w (issue_attempts env n user_id expires_at w)
    unfolding issue_attempts hash_token
    issue_attempts-Attempted zero w = (refl, refl, tt)
    issue_attempts-Attempted (suc n) w =
        let raw = to_string (env.random_int w.draws 100000 1000000) in
        let drawn = record w { draws = w.draws + 1 } in
        elim (Bool-cases (
          any (clash (new_row (env.uuid w.ids) user_id (env.sha256 raw) expires_at))
            w.email_verification_tokens)) [
              | inl e ↦
                  rw
                    (try_code_clash (record { raw_token = raw; expires_at = expires_at })
                      (issue_attempts env n user_id expires_at)
                      (create env user_id (env.sha256 raw) expires_at) drawn (after_clash w)
                      (create_clash (env.sha256 raw) drawn e))
                    (Attempted-suc n w _ e (issue_attempts-Attempted n (after_clash w)))
              | inr e ↦
                  rw
                    (try_code_ok (record { raw_token = raw; expires_at = expires_at })
                      (issue_attempts env n user_id expires_at)
                      (create env user_id (env.sha256 raw) expires_at) drawn _
                      (create_free (env.sha256 raw) drawn e))
                    (env.uuid w.ids, refl, six_digits w.draws, e, refl)
            ]

  -- The world once the active codes of the user are voided.
  abbrev pub voided : ℕ → World → World
  voided user_id w = record w {
    email_verification_tokens =
        map (patch (active_of user_id) (used (env.clock w.reads))) w.email_verification_tokens;
    reads = w.reads + 1;
  }

  abbrev pub expiry : World → ℕ
  expiry w = env.clock (w.reads + 1) + email_verification_token_ttl_ms

  invalidate_lem :
      (user_id : ℕ) (w : World)
      → invalidate_active_for_user env user_id w ≡ (ok tt, voided user_id w)
  unfolding invalidate_active_for_user
  invalidate_lem user_id w = rw env.db.update_many_law

  issue_start :
      (user_id : ℕ) (w : World)
      → issue env user_id w
        ≡ issue_attempts env max_issue_attempts user_id
            (expiry w)
            (record (voided user_id w) { reads = w.reads + 1 + 1 })
  unfolding issue
  issue_start user_id w = ground (arith, invalidate_lem user_id w)

  issue-Attempted :
      (user_id : ℕ) (w : World)
      → Attempted user_id
          (expiry w)
          max_issue_attempts
          (record (voided user_id w) { reads = w.reads + 1 + 1 })
          (issue env user_id w)
  issue-Attempted user_id w =
      let start = record (voided user_id w) { reads = w.reads + 1 + 1 } in
      subst (Attempted user_id (expiry w) max_issue_attempts start) (sym (issue_start user_id w))
        (issue_attempts-Attempted user_id (expiry w) max_issue_attempts start)

  -- What is left of the user's codes: the new one alone, or, with the error, none.
  abbrev pub IsLeft : ℕ → Result Issued × World → Type 0
  IsLeft user_id (ok i, w') =
      (r : OneTimeToken) × (filter (active_of user_id) w'.email_verification_tokens ≡ r ∷ [])
      × (r.token_hash ≡ env.sha256 i.raw_token)
      × (Text.length i.raw_token ≡ 6)
  IsLeft user_id (err e, w') =
      (e ≡ error "Failed to generate a unique email verification token")
      × HasNoCode user_id w'.email_verification_tokens

  Attempted-IsLeft :
      (user_id expires_at n : ℕ) (w : World) (result : Result Issued × World)
      → HasNoCode user_id w.email_verification_tokens
      → Attempted user_id expires_at n w result
      → IsLeft user_id result
  Attempted-IsLeft user_id expires_at n w (ok i, w') clear (id, _, six, _, rows) =
      let row = new_row id user_id (env.sha256 i.raw_token) expires_at in
      (
        row,
        rw rows (
            active_after_create user_id row w.email_verification_tokens
              (ground (arith, ==_refl user_id)) clear),
        refl,
        six,
      )
  Attempted-IsLeft user_id expires_at n w (err e, w') clear (message, same, _) =
      (message, rw same clear)

  -- However `issue` ends, the codes that the user had before are void. With a code: it has six
  -- characters and is the one active code of the user. With the error: the user has none.
  pub issue-IsLeft : (user_id : ℕ) (w : World) → IsLeft user_id (issue env user_id w)
  issue-IsLeft user_id w =
      Attempted-IsLeft user_id (expiry w) max_issue_attempts
        (record (voided user_id w) { reads = w.reads + 1 + 1 }) (issue env user_id w)
        (invalidated-HasNoCode user_id (env.clock w.reads) w.email_verification_tokens)
        (issue-Attempted user_id w)

  Attempted-IsUsable :
      (user_id expires_at n : ℕ) (w : World) {i : Issued} {w' : World}
      → Attempted user_id expires_at n w (ok i, w')
      → ltb i.expires_at (env.clock w'.reads) ≡ false
      → (r : OneTimeToken) × (r.user_id ≡ user_id) × IsUsable env i.raw_token r w'
  Attempted-IsUsable user_id expires_at n w {i} {w'} (id, expiry, _, free, rows) in_time =
      let row = new_row id user_id (env.sha256 i.raw_token) expires_at in
      (
        row,
        refl,
        record {
          found = rw rows (found_after_create row w.email_verification_tokens free);
          unused = refl;
          in_time = rw (← expiry) in_time;
        },
      )

  -- The code that `issue` returned has a row that can be used until it expires.
  pub issued-IsUsable :
      (user_id : ℕ) (w : World) {i : Issued} {w' : World}
      → issue env user_id w ≡ (ok i, w')
      → ltb i.expires_at (env.clock w'.reads) ≡ false
      → (r : OneTimeToken) × (r.user_id ≡ user_id) × IsUsable env i.raw_token r w'
  issued-IsUsable user_id w {i} {w'} e in_time =
      Attempted-IsUsable user_id (expiry w) max_issue_attempts
        (record (voided user_id w) { reads = w.reads + 1 + 1 }) {i = i} {w' = w'}
        (rw e at (issue-Attempted user_id w)) in_time

  Attempted-expiry :
      (user_id expires_at n : ℕ) (w : World) (i : Issued) (w' : World)
      → Attempted user_id expires_at n w (ok i, w')
      → i.expires_at ≡ expires_at
  Attempted-expiry user_id expires_at n w i w' (id, same, _, _, _) = same

  pub issued_expiry :
      (user_id : ℕ) (w : World) {i : Issued} {w' : World}
      → issue env user_id w ≡ (ok i, w')
      → i.expires_at ≡ expiry w
  issued_expiry user_id w {i} {w'} e =
      Attempted-expiry user_id (expiry w) max_issue_attempts
        (record (voided user_id w) { reads = w.reads + 1 + 1 }) i w'
        (rw e at (issue-Attempted user_id w))

  -- A code that `issue` returned, presented before its expiry, is accepted for the user that it
  -- was issued to.
  pub verification_code_accepted :
      (user_id : ℕ) (w : World) {i : Issued} {w' : World}
      → issue env user_id w ≡ (ok i, w')
      → ltb i.expires_at (env.clock w'.reads) ≡ false
      → (verify env i.raw_token w').0 ≡ ok (some user_id)
  verification_code_accepted user_id w e in_time =
      let (r, owner, usable) = issued-IsUsable user_id w e in_time in
      rw (verify_usable env _ r _ usable) (ap (λ u. ok (some u)) owner)
