-- ===== src/Transactions/Pages.antt =====
-- Proofs about the pages of `findAll` of src/module/transactions/transactions.service.ts.
use mathlib.Core.List.{Perm, foldr}
use mathlib.Core.List.Perm
use native.Mathlib.Nat.{lt-div-mul-add, suc-mul, zero-mul, ℕ_set}
use lexi_ledger_backend.Base.{
  ℕ, zero, suc, ◌+◌, ◌-◌, ◌*◌, ◌≤◌, ◌≡◌, refl, sym, subst, ◌∙◌, ap, ap₂, Bool, Option, List, [],
  ◌∷◌, ◌++◌, filter, length, take, drop, arith,
}
use lexi_ledger_backend.Schema.{Transaction}
use lexi_ledger_backend.Platform.{World, Result, ok, err, Env, IsSorted}
use lexi_ledger_backend.Transactions.{
  DateRange, Page, listing_where, ceil_div, sorted_rows, find_all,
}

module _ {A : Type 0} where
  take-nil : (n : ℕ) → take {A = A} n [] ≡ []
  take-nil zero = refl
  take-nil (suc n) = refl

  take-take-drop : (a b : ℕ) (xs : List A) → take a xs ++ take b (drop a xs) ≡ take (a + b) xs
  take-take-drop zero b xs = ground arith
  take-take-drop (suc a) b [] = take-nil b ∙ sym (take-nil (suc a + b))
  take-take-drop (suc a) b (x ∷ xs) =
      let e : suc a + b ≡ suc (a + b) = omega arith in
      rw e (ap (λ ys. x ∷ ys) (take-take-drop a b xs))

  take_all : (n : ℕ) (xs : List A) → length xs ≤ n → take n xs ≡ xs
  take_all zero [] h = refl
  take_all (suc n) [] h = refl
  take_all zero (x ∷ xs) h = absurd (omega arith)
  take_all (suc n) (x ∷ xs) h = ap (λ ys. x ∷ ys) (take_all n xs (omega arith))

  length_as_foldr : (xs : List A) → length xs ≡ foldr (λ _ n. suc n) 0 xs
  length_as_foldr [] = refl
  length_as_foldr (x ∷ xs) = ap suc (length_as_foldr xs)

  length-Perm : {xs ys : List A} → Perm xs ys → length xs ≡ length ys
  length-Perm {xs} {ys} p =
      length_as_foldr xs
      ∙ Perm.foldr-eq ℕ_set (λ _ n. suc n) (λ a b n. refl) p 0
      ∙ sym (length_as_foldr ys)

-- Enough pages for all rows.
ceil_div_enough : (total limit : ℕ) → 1 ≤ limit → total ≤ ceil_div total limit * limit
ceil_div_enough total limit h = omega (arith, lt-div-mul-add {a = total + limit - 1} {b = limit} h)

-- The rows that an answer brings.
abbrev pub rows_of : Result (Page Transaction) → List Transaction
rows_of (ok p) = p.rows
rows_of (err e) = []

module _ (env : Env) (user_id limit : ℕ) (statement_id : Option ℕ) (range : DateRange) where
  -- The answer for a page, and the rows of the first n pages, one after the other.
  abbrev pub page : ℕ → World → Result (Page Transaction)
  page n w = (find_all env user_id (record { page = n; limit = limit }) statement_id range w).0

  abbrev pub first_pages : ℕ → World → List Transaction
  first_pages zero w = []
  first_pages (suc n) w = first_pages n w ++ rows_of (page (suc n) w)

  abbrev fits : Transaction → Bool
  fits = listing_where user_id statement_id range

  page_rows :
      (n : ℕ) (w : World)
      → rows_of (page (suc n) w) ≡ take limit (drop (n * limit) (sorted_rows env fits w))
  unfolding find_all
  page_rows n w = let e : suc n - 1 ≡ n = omega arith in rw e refl

  first_pages-take :
      (n : ℕ) (w : World) → first_pages n w ≡ take (n * limit) (sorted_rows env fits w)
  first_pages-take zero w = rw (zero-mul limit) refl
  first_pages-take (suc n) w =
      ap₂ (λ xs ys. xs ++ ys) (first_pages-take n w) (page_rows n w)
      ∙ take-take-drop (n * limit) limit (sorted_rows env fits w)
      ∙ ap (λ k. take k (sorted_rows env fits w)) (sym (suc-mul n limit))

  sorted_rows-Perm : (w : World) → Perm (sorted_rows env fits w) (filter fits w.transactions)
  sorted_rows-Perm w =
      Perm.trans
        (env.db.order_by_perm (λ t. t.date) (λ t. t.id) (env.db.find_many fits w.transactions))
        (env.db.find_many_law fits w.transactions)

  -- With a limit of at least one, the first page tells how many pages there are, and the pages up
  -- to that one, in their order, list each fitting transaction of the user as often as it is
  -- stored, newest first, and by id where dates tie.
  pub pages_cover :
      (w : World)
      → 1 ≤ limit
      → (p : Page Transaction) × (page 1 w ≡ ok p)
        × Perm
            (first_pages p.total_pages w)
            (filter (listing_where user_id statement_id range) w.transactions)
        × IsSorted (λ t. t.date) (λ t. t.id) (first_pages p.total_pages w)
  unfolding find_all
  pages_cover w h =
      let total = env.db.count fits w.transactions in
      let sorted = sorted_rows env fits w in
      let all : length sorted ≤ ceil_div total limit * limit =
        rw (length-Perm (sorted_rows-Perm w) ∙ sym (env.db.count_law fits w.transactions))
          (ceil_div_enough total limit h) in
      let covered : first_pages (ceil_div total limit) w ≡ sorted =
        first_pages-take (ceil_div total limit) w
        ∙ take_all (ceil_div total limit * limit) sorted all in
      (
        _,
        refl,
        subst (λ rows. Perm rows (filter fits w.transactions)) (sym covered) (sorted_rows-Perm w),
        subst (IsSorted (λ t. t.date) (λ t. t.id)) (sym covered) (
            env.db.order_by_sorted (λ t. t.date) (λ t. t.id)
              (env.db.find_many fits w.transactions)),
      )
