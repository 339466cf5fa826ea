-- ===== src/Api/Isolation/Handlers.antt =====
-- Proofs about the routes under `JwtAuthGuard` of src/module: a request of a user leaves the rows of
-- the other users as they are.
use lexi_ledger_backend.Base.{ℕ, ◌+◌, String, some, ◌≡◌, refl}
use lexi_ledger_backend.Platform.{World, Env, JwtPayload}
use lexi_ledger_backend.Platform.Keeps.{Keeps-pure, Keeps-bind}
use lexi_ledger_backend.Users
use lexi_ledger_backend.Budgets
use lexi_ledger_backend.Api.Routes.{UserRoute}
use lexi_ledger_backend.Api.Keeping.{IsKeptByWrites, Keeps-respond_user}
use lexi_ledger_backend.Api.Isolation.{SameForOthers, unchanged_for}
use lexi_ledger_backend.Api.Isolation.Tables.{same_rows}
use lexi_ledger_backend.Api.Isolation.Accounts.{Keeps-revoke_all, Keeps-update_user}
use lexi_ledger_backend.Api.Isolation.Limits.{Keeps-upsert, Keeps-remove}
use lexi_ledger_backend.Api.Isolation.Ledger.{Keeps-correct, Keeps-upload}
use lexi_ledger_backend.Api

module _ (env : Env) (user_id : ℕ) (before : World) where
  SameForOthers-IsKeptByWrites : IsKeptByWrites env user_id (SameForOthers user_id before)
  unfolding Users.update_name Budgets.set
  SameForOthers-IsKeptByWrites = record {
    clock_read = λ w h. same_rows env user_id before w (w.reads + 1) w.draws w.ids w.objects h;
    revoke_all = Keeps-revoke_all env user_id before;
    update_name = λ name.
        Keeps-bind (Users.update_user env user_id _) _
          (Keeps-update_user env user_id before (λ u. record u { name = name }) (λ u. refl))
          (λ u. Keeps-pure _);
    set = Keeps-upsert env user_id before;
    remove = Keeps-remove env user_id before;
    correct = Keeps-correct env user_id before;
    upload = Keeps-upload env user_id before;
  }

module _ (env : Env) (node_env : String) where
  -- A request to any route under `JwtAuthGuard`, with a token that passes the check at its time,
  -- leaves the rows of every other user than the one that the token names as they were, in each
  -- table, changes no code and sends no email.
  pub others_untouched :
      (url token : String) (route : UserRoute) (w : World) {payload : JwtPayload}
      → env.jwt_verify (env.clock w.reads) token ≡ some payload
      → SameForOthers payload.sub w (Api.respond_user env node_env url (some token) route w).1
  others_untouched url token route w {payload} h =
      Keeps-respond_user env node_env (SameForOthers payload.sub w) url token route w h
        (SameForOthers-IsKeptByWrites env payload.sub w) (unchanged_for payload.sub w)
