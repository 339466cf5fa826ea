-- ===== src/Api/Isolation/Accounts.antt =====
-- Proofs about src/module/users and src/module/refresh-tokens: what the routes under `JwtAuthGuard`
-- write there is of rows of the user whose id they are given.
use lexi_ledger_backend.Base.{
  ℕ, ◌+◌, Option, none, some, map, ◌≡◌, ap, ◌∙◌, ◌==◌, arith, find?, patch,
}
use lexi_ledger_backend.Schema.{User}
use lexi_ledger_backend.Platform.{World, Env}
use lexi_ledger_backend.RefreshTokens
use lexi_ledger_backend.Users
use mathlib.Core.Option
use lexi_ledger_backend.Api.Isolation.{SameForOthers, but, but-patch}
use lexi_ledger_backend.Api.Isolation.Tables.{
  KeepsOthers, same_rows, with_users, with_refresh_tokens,
}

module _ (env : Env) (user_id : ℕ) (before : World) where
  pub Keeps-revoke_all :
      KeepsOthers env user_id before (RefreshTokens.revoke_all_for_user env user_id)
  unfolding RefreshTokens.revoke_all_for_user
  Keeps-revoke_all = record {
    at = λ w h.
        let w' = record w { reads = w.reads + 1 } in
        let p = RefreshTokens.active_of user_id in
        let f = RefreshTokens.revoked (env.clock w.reads) in
        with_refresh_tokens env user_id before w' (env.db.update_many p f w.refresh_tokens)
          (ap (but (λ r. r.user_id) user_id) (env.db.update_many_law p f w.refresh_tokens)
            ∙ but-patch (λ r. r.user_id) user_id p f w.refresh_tokens
                (λ r e. (ground arith, ground arith)))
          (same_rows env user_id before w (w.reads + 1) w.draws w.ids w.objects h);
  }

  -- An update that keeps the id of the user's row.
  store_updated_user :
      (f : User → User) (o : Option User) (w : World)
      → ((u : User) → (f u).id ≡ u.id)
      → SameForOthers user_id before w
      → SameForOthers user_id before
          (Users.store_updated env
            (Option.map (λ u. (f u, map (patch (λ u. u.id == user_id) f) w.users)) o)
            w).1
  store_updated_user f none w k h = h
  store_updated_user f (some u) w k h =
      with_users env user_id before w (map (patch (λ u. u.id == user_id) f) w.users)
        (but-patch (λ r. r.id) user_id (λ u. u.id == user_id) f w.users
          (λ r e. (ground arith, k r ∙ ground arith)))
        h

  pub Keeps-update_user :
      (f : User → User)
      → ((u : User) → (f u).id ≡ u.id)
      → KeepsOthers env user_id before (Users.update_user env user_id f)
  unfolding Users.update_user
  Keeps-update_user f k = record {
    at = λ w h.
        rw (env.db.update_law (λ u. u.id == user_id) f w.users)
          (store_updated_user f (find? (λ u. u.id == user_id) w.users) w k h);
  }
