-- ===== src/Platform/Groups.antt =====
-- What `groupBy` with `_sum` and `_count` answers, and the order of a sorted query.
use lexi_ledger_backend.Base.{ℕ, ◌≡◌, ◌≤◌, ◌<◌, ◌⊎◌, Option, none, some, List, [], ◌∷◌, All, length}
use lexi_ledger_backend.Base.Int.{ℤ, pos, ◌+ℤ◌}

-- One group of rows: its key, `_sum.amount` and `_count`.
pub record Group (K : Type 0) : Type 0 where
  pub key : K
  pub sum : Option ℤ
  pub count : ℕ

-- The sum of a column.
unfoldable pub total : {Row : Type 0} → (Row → ℤ) → List Row → ℤ
total amount [] = pos 0
total amount (r ∷ rows) = amount r +ℤ total amount rows

-- The group of a list of rows that share a key: there is none without a row.
abbrev pub group_of : {K Row : Type 0} → (Row → ℤ) → K → List Row → Option (Group K)
group_of amount k [] = none
group_of amount k (r ∷ rows) =
    some (record { key = k; sum = some (total amount (r ∷ rows)); count = length (r ∷ rows) })

-- `x` may stand before `y` in descending order of the first key, then of the second.
abbrev pub Precedes : {Row : Type 0} → (Row → ℕ) → (Row → ℕ) → Row → Row → Type 0
Precedes k₁ k₂ x y = (k₁ y < k₁ x) ⊎ ((k₁ y ≡ k₁ x) × (k₂ y ≤ k₂ x))

abbrev pub IsSorted : {Row : Type 0} → (Row → ℕ) → (Row → ℕ) → List Row → Type 0
IsSorted k₁ k₂ [] = Unit
IsSorted k₁ k₂ (x ∷ xs) = All (Precedes k₁ k₂ x) xs × IsSorted k₁ k₂ xs
