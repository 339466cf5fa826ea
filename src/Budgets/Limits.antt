-- ===== src/Budgets/Limits.antt =====
-- Proofs about `set` and `remove` of src/module/budget/budgets.service.ts.
use mathlib.Core.Option
use lexi_ledger_backend.Base.{
  false, true, ℕ, ◌+◌, ◌≤◌, ◌≡◌, refl, Option, none, some, List, [], ◌∷◌, ◌++◌, map, arith, not,
  filter, filter-append, filter_of_find?, find?, find?-map, find?-append_none, find?-filter-not,
  find?-holds, Bool-cases, length, length-append, length-filter-map, patch, Option-cases, inl, inr,
  ==_refl,
}
use lexi_ledger_backend.Base.Int.{pos, fits_int32}
use lexi_ledger_backend.Schema.{Budget, TransactionCategory}
use lexi_ledger_backend.Platform.{World, ok, err, not_found, prisma, p2020, Env}
use lexi_ledger_backend.Transactions.Totals.{category_eq→≡}
use lexi_ledger_backend.Budgets.{
  is_budget_of, with_limit, set, upsert, remove, delete, find_one, budget_not_found,
}

-- A user has at most one budget of a category.
abbrev pub HasOneEach : List Budget → Type 0
HasOneEach rows =
    (user_id : ℕ) (category : TransactionCategory)
    → length (filter (is_budget_of user_id category) rows) ≤ 1

module _ (env : Env) where
  abbrev pub stored : ℕ → TransactionCategory → World → Option Budget
  stored user_id category w = find? (is_budget_of user_id category) w.budgets

  abbrev pub new_budget : ℕ → TransactionCategory → ℕ → World → Budget
  new_budget user_id category limit w = record {
    id = env.uuid w.ids;
    user_id = user_id;
    category = category;
    monthly_limit = limit;
  }

  set_new :
      (user_id : ℕ) (category : TransactionCategory) (limit : ℕ) (w : World)
      → fits_int32 (pos limit) ≡ true
      → stored user_id category w ≡ none
      → set env user_id category limit w ≡ (
        ok (new_budget user_id category limit w),
        record w {
          budgets = w.budgets ++ new_budget user_id category limit w ∷ [];
          ids = w.ids + 1;
        },
      )
  unfolding set upsert
  set_new user_id category limit w fits h = ground (
    arith,
    fits,
    env.db.refusal_law [] (pos limit ∷ []),
    env.db.update_law (is_budget_of user_id category) (with_limit env limit) w.budgets,
    h,
    env.db.create_many_law (new_budget user_id category limit w ∷ []) w.budgets,
  )

  set_old :
      (user_id : ℕ) (category : TransactionCategory) (limit : ℕ) (w : World) {b : Budget}
      → fits_int32 (pos limit) ≡ true
      → stored user_id category w ≡ some b
      → set env user_id category limit w ≡ (
        ok (record b { monthly_limit = limit }),
        record w {
          budgets = map (patch (is_budget_of user_id category) (with_limit env limit)) w.budgets;
          ids = w.ids + 1;
        },
      )
  unfolding set upsert
  set_old user_id category limit w fits h = ground (
    arith,
    fits,
    env.db.refusal_law [] (pos limit ∷ []),
    env.db.update_law (is_budget_of user_id category) (with_limit env limit) w.budgets,
    h,
  )

  one_more :
      (user_id : ℕ) (category : TransactionCategory) (limit : ℕ) (w : World) (u : ℕ)
      (c : TransactionCategory)
      → HasOneEach w.budgets
      → stored user_id category w ≡ none
      → length (filter (is_budget_of u c) (w.budgets ++ new_budget user_id category limit w ∷ []))
        ≤ 1
  one_more user_id category limit w u c h missing =
      let new = new_budget user_id category limit w in
      elim (Bool-cases (is_budget_of u c new)) [
        | inl e ↦
            let same_user : user_id ≡ u = ground arith in
            let same_category : category ≡ c = category_eq→≡ category c (ground arith) in
            rw
              (
                ← same_user,
                ← same_category,
                filter-append,
                filter_of_find? (is_budget_of user_id category) w.budgets missing,
              )
              (ground arith)
        | inr e ↦ rw (filter-append, length-append, e) (omega (arith, h u c))
      ]

  -- Setting a limit in the range of its column keeps at most one budget of each user and category,
  -- and the budget is then found with the new limit.
  pub set_once :
      (user_id : ℕ) (category : TransactionCategory) (limit : ℕ) (w : World)
      → fits_int32 (pos limit) ≡ true
      → HasOneEach w.budgets
      → let w' = (set env user_id category limit w).1 in
        HasOneEach w'.budgets
        × (Option.map (λ b. b.monthly_limit) (stored user_id category w') ≡ some limit)
  set_once user_id category limit w fits h = elim (Option-cases (stored user_id category w)) [
    | inl missing ↦ rw (set_new user_id category limit w fits missing) (
      λ u c. one_more user_id category limit w u c h missing,
      rw
          (find?-append_none (is_budget_of user_id category) w.budgets
            (new_budget user_id category limit w ∷ []) missing)
          (ground (arith, ==_refl user_id)),
    )
    | inr (b, found) ↦ rw (set_old user_id category limit w fits found) (
      λ u c.
          rw
            (length-filter-map (is_budget_of u c)
              (patch (is_budget_of user_id category) (with_limit env limit)) w.budgets
              (λ x. ground arith))
            (h u c),
      rw
          (
            find?-map (is_budget_of user_id category)
                (patch (is_budget_of user_id category) (with_limit env limit)) w.budgets
                (λ x. ground arith),
            found,
          )
          (ground (arith, find?-holds (is_budget_of user_id category) w.budgets found)),
    )
  ]

  -- A limit out of the range of its column is refused, and nothing changes.
  pub set_out_of_range :
      (user_id : ℕ) (category : TransactionCategory) (limit : ℕ) (w : World)
      → fits_int32 (pos limit) ≡ false
      → set env user_id category limit w ≡ (err (prisma p2020), w)
  unfolding set upsert
  set_out_of_range user_id category limit w h = rw (env.db.refusal_law [] (pos limit ∷ []), h) refl

  -- What `remove` does, by the budget that is stored.
  abbrev pub Removed : ℕ → TransactionCategory → World → Option Budget → Type 0
  Removed user_id category w none =
      remove env user_id category w ≡ (err (not_found budget_not_found), w)
  Removed user_id category w (some b) =
      let (result, w') = remove env user_id category w in
      (result ≡ ok b) × (stored user_id category w' ≡ none)

  remove-stored :
      (user_id : ℕ) (category : TransactionCategory) (w : World) {b : Budget}
      → stored user_id category w ≡ some b
      → remove env user_id category w ≡ (
        ok b,
        record w { budgets = filter (λ x. not (is_budget_of user_id category x)) w.budgets },
      )
  unfolding remove find_one delete
  remove-stored user_id category w e = ground (
    arith,
    env.db.find_first_law (is_budget_of user_id category) w.budgets,
    env.db.delete_law (is_budget_of user_id category) w.budgets,
    e,
  )

  removed :
      (user_id : ℕ) (category : TransactionCategory) (w : World) (o : Option Budget)
      → stored user_id category w ≡ o
      → Removed user_id category w o
  unfolding remove find_one delete
  removed user_id category w none e =
      ground (arith, env.db.find_first_law (is_budget_of user_id category) w.budgets)
  removed user_id category w (some b) e =
      rw (remove-stored user_id category w e)
        (refl, find?-filter-not (is_budget_of user_id category) w.budgets)

  -- Removing a budget that is there returns it and leaves none for the user and the category;
  -- removing one that is not there is answered with `NotFoundException` and changes nothing.
  pub remove-Removed :
      (user_id : ℕ) (category : TransactionCategory) (w : World)
      → Removed user_id category w (stored user_id category w)
  remove-Removed user_id category w = removed user_id category w (stored user_id category w) refl
