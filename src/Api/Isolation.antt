-- ===== src/Api/Isolation.antt =====
-- Proofs about the routes under `JwtAuthGuard` of src/module: the rows that a user's request leaves
-- as they are.
pub mod Tables
pub mod Accounts
pub mod Limits
pub mod Ledger
pub mod Handlers
use lexi_ledger_backend.Base.{
  ℕ, ◌+◌, String, Bool, true, false, Option, none, some, List, [], ◌∷◌, ◌++◌, map, ◌≡◌, refl, ◌∙◌,
  ◌==◌, ◌&&◌, not, arith, ltb, any, filter, find?, patch, filter-patch, filter-append, Bool-cases,
  Option-cases, inl, inr, if◌then◌else◌,
}
use lexi_ledger_backend.Schema.{
  User, RefreshToken, OneTimeToken, UploadStatement, Transaction, TransactionCategory,
  TransactionCorrection, Budget,
}
use lexi_ledger_backend.Platform.{World, Action, Env}
use lexi_ledger_backend.Platform.Keeps.{
  Keeps, Keeps-pure, Keeps-throw, Keeps-gets, Keeps-if, Keeps-bind,
}

-- The rows that are not of a user.
abbrev pub users_but : ℕ → World → List User
users_but user_id w = filter (λ r. not (r.id == user_id)) w.users

abbrev pub refresh_tokens_but : ℕ → World → List RefreshToken
refresh_tokens_but user_id w = filter (λ r. not (r.user_id == user_id)) w.refresh_tokens

abbrev pub statements_but : ℕ → World → List UploadStatement
statements_but user_id w = filter (λ r. not (r.user_id == user_id)) w.upload_statements

abbrev pub transactions_but : ℕ → World → List Transaction
transactions_but user_id w = filter (λ r. not (r.user_id == user_id)) w.transactions

abbrev pub corrections_but : ℕ → World → List TransactionCorrection
corrections_but user_id w = filter (λ r. not (r.user_id == user_id)) w.corrections

abbrev pub budgets_but : ℕ → World → List Budget
budgets_but user_id w = filter (λ r. not (r.user_id == user_id)) w.budgets

-- The world has the rows that `before` has of the other users; the codes and the emails sent are as
-- they were.
pub record SameForOthers (user_id : ℕ) (before w : World) : Type 0 where
  pub users : users_but user_id w ≡ users_but user_id before
  pub refresh_tokens : refresh_tokens_but user_id w ≡ refresh_tokens_but user_id before
  pub password_reset_tokens : w.password_reset_tokens ≡ before.password_reset_tokens
  pub email_verification_tokens : w.email_verification_tokens ≡ before.email_verification_tokens
  pub upload_statements : statements_but user_id w ≡ statements_but user_id before
  pub transactions : transactions_but user_id w ≡ transactions_but user_id before
  pub corrections : corrections_but user_id w ≡ corrections_but user_id before
  pub budgets : budgets_but user_id w ≡ budgets_but user_id before
  pub sent : w.sent ≡ before.sent

abbrev pub unchanged_for : (user_id : ℕ) (w : World) → SameForOthers user_id w w
unchanged_for user_id w = record {
  users = refl;
  refresh_tokens = refl;
  password_reset_tokens = refl;
  email_verification_tokens = refl;
  upload_statements = refl;
  transactions = refl;
  corrections = refl;
  budgets = refl;
  sent = refl;
}

module _ {Row : Type 0} (owner : Row → ℕ) (user_id : ℕ) where
  abbrev pub but : List Row → List Row
  but rows = filter (λ r. not (owner r == user_id)) rows

  -- Writes of rows of the user: an update, a new row, a removal.
  pub but-patch :
      (p : Row → Bool) (f : Row → Row) (rows : List Row)
      → ((r : Row) → p r ≡ true → (owner r ≡ user_id) × (owner (f r) ≡ user_id))
      → but (map (patch p f) rows) ≡ but rows
  but-patch p f rows h =
      filter-patch p (λ r. not (owner r == user_id)) f rows
        (λ r e. let (own, kept) = h r e in (ground arith, ground arith))

  pub but-append : (rows : List Row) (r : Row) → owner r ≡ user_id → but (rows ++ r ∷ []) ≡ but rows
  but-append [] r h = ground arith
  but-append (x ∷ rows) r h = elim (Bool-cases (owner x == user_id)) [
    | inl e ↦ rw e (but-append rows r h)
    | inr e ↦ rw (e, but-append rows r h)
  ]

  pub but-remove :
      (p : Row → Bool) (rows : List Row)
      → ((r : Row) → p r ≡ true → owner r ≡ user_id)
      → but (filter (λ r. not (p r)) rows) ≡ but rows
  but-remove p [] h = refl
  but-remove p (x ∷ rows) h = elim (Bool-cases (p x)) [
    | inl e ↦ let own = h x e in rw e (ground (arith, but-remove p rows h))
    | inr e ↦ rw e (ground (arith, but-remove p rows h))
  ]
