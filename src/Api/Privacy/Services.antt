-- ===== src/Api/Privacy/Services.antt =====
-- Proofs about the services under src/module: the rows that they return to a user are the user's.
use mathlib.Core.Option
use lexi_ledger_backend.Base.{
  ℕ, ◌+◌, String, Bool, true, Option, none, some, List, map, ◌≡◌, refl, ◌==◌, arith, find?, patch,
}
use lexi_ledger_backend.Schema.{
  User, UploadStatement, Transaction, TransactionCategory, TransactionCorrection, Budget,
}
use lexi_ledger_backend.Platform.{World, Env, pure}
use lexi_ledger_backend.Users
use lexi_ledger_backend.Users.{SafeUser, to_safe_user}
use lexi_ledger_backend.Transactions
use lexi_ledger_backend.Transactions.{
  Pagination, Page, DateRange, is_of_user, category_eq, listing_where, corrections_of, sorted_rows,
}
use lexi_ledger_backend.Api.Privacy.{every}
use lexi_ledger_backend.Api.Privacy.Returns.{
  Holds, Returns, Returns-pure, Returns-throw, Returns-if, Returns-bind, Returns-any,
}
use lexi_ledger_backend.Api.Privacy.Rows.{
  every-page_of, every-find_many, every-order_by, AtMost, find?-AtMost, find_first-AtMost,
}

module _ (env : Env) (user_id : ℕ) where
  -- The user's rows.
  abbrev pub IsOwnUser : SafeUser → Type 0
  IsOwnUser u = (u.id == user_id) ≡ true

  abbrev pub own_transaction : Transaction → Bool
  own_transaction t = t.user_id == user_id

  abbrev pub own_correction : TransactionCorrection → Bool
  own_correction c = c.user_id == user_id

  abbrev pub own_budget : Budget → Bool
  own_budget b = b.user_id == user_id

  abbrev pub own_statement : UploadStatement → Bool
  own_statement s = s.user_id == user_id

  -- Users.
  Returns-safe :
      (o : Option User)
      → AtMost (λ u. u.id == user_id) o
      → Returns IsOwnUser (Users.safe_or_not_found env o)
  Returns-safe none h = Returns-throw _
  Returns-safe (some u) h = Returns-pure _ h

  pub Returns-get_me : Returns IsOwnUser (Users.get_me env user_id)
  unfolding Users.get_me Users.find_by_id
  Returns-get_me =
      Returns-bind (Users.find_by_id env user_id) _
        (record {
          at = λ w.
              find_first-AtMost (λ u. u.id == user_id) env (λ u. u.id == user_id) w.users
                (λ r e. e);
        })
        Returns-safe

  updated_user :
      (f : User → User) (o : Option User) (rows : List User) (w : World)
      → ((u : User) → (f u).id ≡ u.id)
      → AtMost (λ u. u.id == user_id) o
      → Holds
          (λ u. (u.id == user_id) ≡ true)
          (Users.store_updated env (Option.map (λ u. (f u, rows)) o) w).0
  updated_user f none rows w k h = tt
  updated_user f (some u) rows w k h = ground (arith, k u)

  Returns-update_user :
      (f : User → User)
      → ((u : User) → (f u).id ≡ u.id)
      → Returns (λ u. (u.id == user_id) ≡ true) (Users.update_user env user_id f)
  unfolding Users.update_user
  Returns-update_user f k = record {
    at = λ w. rw (env.db.update_law (λ u. u.id == user_id) f w.users) (
        updated_user f (find? (λ u. u.id == user_id) w.users)
          (map (patch (λ u. u.id == user_id) f) w.users) w k
          (find?-AtMost (λ u. u.id == user_id) (λ u. u.id == user_id) w.users (λ r e. e)));
  }

  pub Returns-update_name : (name : String) → Returns IsOwnUser (Users.update_name env user_id name)
  unfolding Users.update_name
  Returns-update_name name =
      Returns-bind (Users.update_user env user_id (λ u. record u { name = name }))
        (λ u. pure (to_safe_user u))
        (Returns-update_user (λ u. record u { name = name }) (λ u. refl))
        (λ u h. Returns-pure (to_safe_user u) h)

  -- Transactions.
  sorted_rows_own :
      (statement_id : Option ℕ) (range : DateRange) (w : World)
      → every own_transaction (sorted_rows env (listing_where user_id statement_id range) w) ≡ true
  sorted_rows_own statement_id range w =
      every-order_by own_transaction env (λ t. t.date) (λ t. t.id) _
        (every-find_many own_transaction env (listing_where user_id statement_id range)
          w.transactions (λ r e. ground arith))

  abbrev pub IsOwnPage : Page Transaction → Type 0
  IsOwnPage p = every own_transaction p.rows ≡ true

  pub Returns-find_all :
      (query : Pagination) (statement_id : Option ℕ) (range : DateRange)
      → Returns IsOwnPage (Transactions.find_all env user_id query statement_id range)
  unfolding Transactions.find_all
  Returns-find_all query statement_id range = record {
    at = λ w. every-page_of own_transaction _ query.limit _ (sorted_rows_own statement_id range w);
  }

  pub Returns-by_id :
      (id : ℕ) → Returns (AtMost own_transaction) (Transactions.find_by_id_for_user env id user_id)
  unfolding Transactions.find_by_id_for_user
  Returns-by_id id = record {
    at = λ w.
        find_first-AtMost own_transaction env (is_of_user id user_id) w.transactions
          (λ r e. ground arith);
  }

  corrected :
      (c : TransactionCorrection) (new : TransactionCategory) (o : Option Transaction)
      (rows : List Transaction) (w : World)
      → AtMost own_transaction o
      → Holds
          (λ t. own_transaction t ≡ true)
          (Transactions.store_corrected env c
            (Option.map (λ t. (record t { category = new }, rows)) o)
            w).0
  corrected c new none rows w h = tt
  corrected c new (some t) rows w h = h

  Returns-apply :
      (id : ℕ) (previous new : TransactionCategory)
      → Returns
          (λ t. own_transaction t ≡ true)
          (Transactions.apply_correction env user_id id previous new)
  unfolding Transactions.apply_correction
  Returns-apply id previous new = record {
    at = λ w.
        let p = is_of_user id user_id in
        rw (env.db.update_law p (λ r. record r { category = new }) w.transactions) (
          corrected _ new (find? p w.transactions) _
            (record w { ids = w.ids + 1; reads = w.reads + 1 })
            (find?-AtMost own_transaction p w.transactions (λ r e. ground arith)));
  }

  Returns-correct_found :
      (id : ℕ) (category : TransactionCategory) (o : Option Transaction)
      → AtMost own_transaction o
      → Returns
          (λ t. own_transaction t ≡ true)
          (Transactions.correct_found env user_id id category o)
  Returns-correct_found id category none h = Returns-throw _
  Returns-correct_found id category (some t) h =
      Returns-if (category_eq t.category category) _ _ (Returns-pure t h)
        (Returns-apply id t.category category)

  pub Returns-correct :
      (id : ℕ) (category : TransactionCategory)
      → Returns (λ t. own_transaction t ≡ true) (Transactions.correct env user_id id category)
  unfolding Transactions.correct
  Returns-correct id category =
      Returns-bind (Transactions.find_by_id_for_user env id user_id) _ (Returns-by_id id)
        (Returns-correct_found id category)

  Returns-corrections_found :
      (id : ℕ) (o : Option Transaction)
      → Returns
          (λ cs. every own_correction cs ≡ true)
          (Transactions.corrections_found env id user_id o)
  unfolding Transactions.find_corrections
  Returns-corrections_found id none = Returns-throw _
  Returns-corrections_found id (some t) = record {
    at = λ w.
        every-order_by own_correction env (λ c. c.corrected_at) (λ _. 0) _
          (every-find_many own_correction env (corrections_of user_id id) w.corrections
            (λ r e. ground arith));
  }

  pub Returns-get_corrections :
      (id : ℕ)
      → Returns (λ cs. every own_correction cs ≡ true) (Transactions.get_corrections env id user_id)
  unfolding Transactions.get_corrections
  Returns-get_corrections id =
      Returns-bind (Transactions.find_by_id_for_user env id user_id) _ (Returns-any _)
        (λ o h. Returns-corrections_found id o)
