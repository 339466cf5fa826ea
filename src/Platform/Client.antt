-- ===== src/Platform/Client.antt =====
-- The queries of the Prisma client that the repositories call. A table is the list of its rows in
-- the order of their creation; the laws are Prisma's documented behaviour on it.
use mathlib.Core.List.{Perm}
use mathlib.Core.Option
use lexi_ledger_backend.Base.{
  ℕ, ◌≡◌, Bool, true, Option, none, some, List, [], ◌∷◌, ◌++◌, map, find?, filter, any, patch,
  length, not, ◌&&◌, if◌then◌else◌, is_some,
}
use lexi_ledger_backend.Base.Int.{ℤ, fits_int32}
use lexi_ledger_backend.Platform.Monad.{PrismaCode, p2020, invalid_argument}
use lexi_ledger_backend.Platform.Groups.{Group, group_of, IsSorted}

-- What the client and the database take for columns of dates and of the type `Int`, which holds 32
-- bits. An Invalid Date is `none`.
abbrev pub are_valid : List (Option ℕ) → Bool
are_valid [] = true
are_valid (d ∷ dates) = is_some d && are_valid dates

abbrev pub all_fit : List ℤ → Bool
all_fit [] = true
all_fit (a ∷ numbers) = fits_int32 a && all_fit numbers

-- Why a query with such values is refused, if it is.
abbrev pub refusal_of : List (Option ℕ) → List ℤ → Option PrismaCode
refusal_of dates numbers =
    if are_valid dates then if all_fit numbers then none else some p2020 else some invalid_argument

pub record Prisma : Type 1 where
  -- The refusal of a query for the dates and the integers in it, before anything is written.
  pub refusal : List (Option ℕ) → List ℤ → Option PrismaCode
  pub refusal_law :
      (dates : List (Option ℕ)) (numbers : List ℤ)
      → refusal dates numbers ≡ refusal_of dates numbers
  -- `findUnique` and `findFirst`: the row that fits the condition, `null` if none does. Every
  -- condition of the program names a unique key.
  pub find_first : {Row : Type 0} → (Row → Bool) → List Row → Option Row
  pub find_first_law :
      {Row : Type 0} (p : Row → Bool) (rows : List Row) → find_first p rows ≡ find? p rows
  -- `findMany` with no order.
  pub find_many : {Row : Type 0} → (Row → Bool) → List Row → List Row
  pub find_many_law :
      {Row : Type 0} (p : Row → Bool) (rows : List Row) → Perm (find_many p rows) (filter p rows)
  -- `orderBy`, descending, on one key and on a second where the first ties.
  pub order_by : {Row : Type 0} → (Row → ℕ) → (Row → ℕ) → List Row → List Row
  pub order_by_perm :
      {Row : Type 0} (k₁ k₂ : Row → ℕ) (rows : List Row) → Perm (order_by k₁ k₂ rows) rows
  pub order_by_sorted :
      {Row : Type 0} (k₁ k₂ : Row → ℕ) (rows : List Row) → IsSorted k₁ k₂ (order_by k₁ k₂ rows)
  pub count : {Row : Type 0} → (Row → Bool) → List Row → ℕ
  pub count_law :
      {Row : Type 0} (p : Row → Bool) (rows : List Row) → count p rows ≡ length (filter p rows)
  -- `create` of a row; `none` is P2002, where a stored row has the same value of a unique key.
  pub create : {Row : Type 0} → (Row → Row → Bool) → Row → List Row → Option (List Row)
  pub create_law :
      {Row : Type 0} (clash : Row → Row → Bool) (r : Row) (rows : List Row)
      → create clash r rows ≡ (if any (clash r) rows then none else some (rows ++ r ∷ []))
  pub create_many : {Row : Type 0} → List Row → List Row → List Row
  pub create_many_law : {Row : Type 0} (new rows : List Row) → create_many new rows ≡ rows ++ new
  -- `update` where a unique key fits: the row as written, and the table; `none` is P2025.
  pub update : {Row : Type 0} → (Row → Bool) → (Row → Row) → List Row → Option (Row × List Row)
  pub update_law :
      {Row : Type 0} (p : Row → Bool) (f : Row → Row) (rows : List Row)
      → update p f rows ≡ Option.map (λ r. (f r, map (patch p f) rows)) (find? p rows)
  pub update_many : {Row : Type 0} → (Row → Bool) → (Row → Row) → List Row → List Row
  pub update_many_law :
      {Row : Type 0} (p : Row → Bool) (f : Row → Row) (rows : List Row)
      → update_many p f rows ≡ map (patch p f) rows
  -- `delete` where a unique key fits: the row that was, and the table; `none` is P2025.
  pub delete : {Row : Type 0} → (Row → Bool) → List Row → Option (Row × List Row)
  pub delete_law :
      {Row : Type 0} (p : Row → Bool) (rows : List Row)
      → delete p rows ≡ Option.map (λ r. (r, filter (λ x. not (p x)) rows)) (find? p rows)
  -- `groupBy`: a group for each key that a fitting row has, in no order that is promised.
  pub group_by :
      {K Row : Type 0}
      → (K → K → Bool)
      → (Row → K)
      → (Row → ℤ)
      → (Row → Bool)
      → List Row
      → List (Group K)
  pub group_by_law :
      {K Row : Type 0} (same : K → K → Bool) (key : Row → K) (amount : Row → ℤ) (p : Row → Bool)
      (rows : List Row) (k : K)
      → ((a b : K) → (same a b ≡ true) → a ≡ b)
      → ((a : K) → same a a ≡ true)
      → find? (λ g. same g.key k) (group_by same key amount p rows)
        ≡ group_of amount k (filter (λ r. p r && same (key r) k) rows)
