-- ===== src/Api/Isolation/Limits.antt =====
-- Proofs about src/module/budget: what its service writes is of rows of the user whose id it is
-- given.
use lexi_ledger_backend.Base.{
  ℕ, ◌+◌, Option, none, some, [], ◌∷◌, map, ◌≡◌, refl, ap, ◌∙◌, not, arith, filter, find?, patch,
}
use lexi_ledger_backend.Base.Int.{pos}
use lexi_ledger_backend.Schema.{TransactionCategory, Budget}
use lexi_ledger_backend.Platform.{World, Env}
use lexi_ledger_backend.Platform.Keeps.{Keeps-throw, Keeps-gets, Keeps-bind, Keeps-accepted}
use lexi_ledger_backend.Budgets
use mathlib.Core.Option
use lexi_ledger_backend.Api.Isolation.{SameForOthers, but, but-patch, but-append, but-remove}
use lexi_ledger_backend.Api.Isolation.Tables.{KeepsOthers, same_rows, with_budgets}

module _ (env : Env) (user_id : ℕ) (before : World) where
  -- Budgets: the limit of a row, a new row, a removal.
  store_upserted_budget :
      (new : Budget) (limit : ℕ) (category : TransactionCategory) (o : Option Budget) (w : World)
      → new.user_id ≡ user_id
      → SameForOthers user_id before w
      → let p = Budgets.is_budget_of user_id category in
        SameForOthers user_id before
          (Budgets.store_upserted env new
            (Option.map
              (λ b. (
                Budgets.with_limit env limit b,
                map (patch p (Budgets.with_limit env limit)) w.budgets,
              ))
              o)
            w).1
  store_upserted_budget new limit category none w k h =
      with_budgets env user_id before w (env.db.create_many (new ∷ []) w.budgets)
        (ap (but (λ r. r.user_id) user_id) (env.db.create_many_law (new ∷ []) w.budgets)
          ∙ but-append (λ r. r.user_id) user_id w.budgets new k)
        h
  store_upserted_budget new limit category (some b) w k h =
      with_budgets env user_id before w _
        (but-patch (λ r. r.user_id) user_id (Budgets.is_budget_of user_id category)
          (Budgets.with_limit env limit) w.budgets (λ r e. (ground arith, ground arith)))
        h

  pub Keeps-upsert :
      (category : TransactionCategory) (limit : ℕ)
      → KeepsOthers env user_id before (Budgets.upsert env user_id category limit)
  unfolding Budgets.upsert
  Keeps-upsert category limit =
      Keeps-accepted (env.db.refusal [] (pos limit ∷ []))
        (Budgets.upsert_accepted env user_id category limit)
        (record {
          at = λ w h.
              let w' = record w { ids = w.ids + 1 } in
              let p = Budgets.is_budget_of user_id category in
              rw (env.db.update_law p (Budgets.with_limit env limit) w.budgets) (
                store_upserted_budget _ limit category (find? p w.budgets) w' refl
                  (same_rows env user_id before w w.reads w.draws (w.ids + 1) w.objects h));
        })

  store_deleted_budget :
      (category : TransactionCategory) (o : Option Budget) (w : World)
      → SameForOthers user_id before w
      → let p = Budgets.is_budget_of user_id category in
        SameForOthers user_id before
          (Budgets.store_deleted env
            (Option.map (λ b. (b, filter (λ x. not (p x)) w.budgets)) o)
            w).1
  store_deleted_budget category none w h = h
  store_deleted_budget category (some b) w h =
      with_budgets env user_id before w _
        (but-remove (λ r. r.user_id) user_id (Budgets.is_budget_of user_id category) w.budgets
          (λ r e. ground arith))
        h

  Keeps-delete :
      (category : TransactionCategory)
      → KeepsOthers env user_id before (Budgets.delete env user_id category)
  unfolding Budgets.delete
  Keeps-delete category = record {
    at = λ w h.
        let p = Budgets.is_budget_of user_id category in
        rw (env.db.delete_law p w.budgets) (store_deleted_budget category (find? p w.budgets) w h);
  }

  Keeps-remove_found :
      (category : TransactionCategory) (o : Option Budget)
      → KeepsOthers env user_id before (Budgets.remove_found env user_id category o)
  Keeps-remove_found category none = Keeps-throw _
  Keeps-remove_found category (some _) = Keeps-delete category

  pub Keeps-remove :
      (category : TransactionCategory)
      → KeepsOthers env user_id before (Budgets.remove env user_id category)
  unfolding Budgets.remove Budgets.find_one
  Keeps-remove category =
      Keeps-bind (Budgets.find_one env user_id category) _ (Keeps-gets _)
        (Keeps-remove_found category)
