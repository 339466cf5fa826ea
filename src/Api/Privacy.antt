-- ===== src/Api/Privacy.antt =====
-- What an answer of the routes under src/module discloses: whose rows stand in it.
pub mod Returns
pub mod Rows
pub mod Services
pub mod Stores
pub mod Handlers
use lexi_ledger_backend.Base.{ℕ, Bool, true, ◌==◌, ◌&&◌, List, [], ◌∷◌}
use lexi_ledger_backend.Schema.{Transaction, TransactionCorrection, UploadStatement}
use lexi_ledger_backend.Budgets.{BudgetReport}
use lexi_ledger_backend.Api.Envelope
use lexi_ledger_backend.Api.Envelope.{Value}

abbrev pub every : {A : Type 0} → (A → Bool) → List A → Bool
every p [] = true
every p (x ∷ xs) = p x && every p xs

-- The rows that stand in a value are all of the user. Sums, messages and tokens hold no row.
abbrev pub owned : ℕ → Value → Bool
owned user_id (Value.user u) = u.id == user_id
owned user_id (Value.transaction t) = t.user_id == user_id
owned user_id (Value.transactions ts) = every (λ t. t.user_id == user_id) ts
owned user_id (Value.corrections cs) = every (λ c. c.user_id == user_id) cs
owned user_id (Value.budget b) = b.user_id == user_id
owned user_id (Value.budgets reports) = every (λ r. r.budget.user_id == user_id) reports
owned user_id (Value.statement s) = s.user_id == user_id
owned user_id (Value.statements ss) = every (λ s. s.user_id == user_id) ss
owned user_id (Value.paginated rows meta) = owned user_id rows
owned user_id _ = true
