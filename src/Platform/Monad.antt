-- ===== src/Platform/Monad.antt =====
-- The exceptions that the code throws, the world, and the monad of a request: what was written
-- before an exception stays written.
use lexi_ledger_backend.Base.{ℕ, String, Bool, Option, List, if◌then◌else◌}
use lexi_ledger_backend.Schema.{
  User, RefreshToken, OneTimeToken, UploadStatement, Transaction, TransactionCorrection, Budget,
}

-- Prisma's errors: a unique constraint failed, a value out of the range of its column's type, no
-- row to update or delete, and the client's own refusal of an argument (an Invalid Date).
pub data PrismaCode : Type 0 where
  p2002 p2020 p2025 invalid_argument : PrismaCode

-- The classes of `@nestjs/common` by name, Prisma's error, bullmq's `UnrecoverableError`, and a
-- plain `Error`, each with its message.
pub data Exception : Type 0 where
  unauthorized not_found conflict bad_request error unrecoverable : String → Exception
  prisma : PrismaCode → Exception

pub data Result (A : Type 0) : Type 0 where
  ok : A → Result A
  err : Exception → Result A

-- An email handed to the mail service.
pub record Mail : Type 0 where
  pub to : String
  pub subject : String
  pub html : String

-- A job of the statement queue.
pub record Job : Type 0 where
  pub statement_id : ℕ
  pub attempts : Option ℕ
  pub attempts_made : ℕ

-- The tables, the object store, the queue, the emails sent, and how often the clock, the random
-- source and the source of uuids have been read.
pub record World : Type 0 where
  pub users : List User
  pub refresh_tokens : List RefreshToken
  pub password_reset_tokens : List OneTimeToken
  pub email_verification_tokens : List OneTimeToken
  pub upload_statements : List UploadStatement
  pub transactions : List Transaction
  pub corrections : List TransactionCorrection
  pub budgets : List Budget
  pub objects : List (String × String)
  pub queue : List Job
  pub sent : List Mail
  pub reads : ℕ
  pub draws : ℕ
  pub ids : ℕ

abbrev pub Action : Type 0 → Type 0
Action A = World → Result A × World

module _ {A : Type 0} where
  abbrev pub pure : A → Action A
  pure a w = (ok a, w)

  -- `throw e`
  abbrev pub throw : Exception → Action A
  throw e w = (err e, w)

  abbrev pub gets : (World → A) → Action A
  gets f w = (ok (f w), w)

infixl 5 ◌>>=◌ ◌>>◌
abbrev pub ◌>>=◌ : {A B : Type 0} → Action A → (A → Action B) → Action B
◌>>=◌ m f w = let (r, w') = m w in elim r [ ok a ↦ f a w' | err e ↦ (err e, w') ]

abbrev pub ◌>>◌ : {A B : Type 0} → Action A → Action B → Action B
m >> k = m >>= λ _. k

abbrev pub modify : (World → World) → Action (Unit {0})
modify f w = (ok tt, f w)

-- `if (c) throw e`
abbrev pub throw_if : Bool → Exception → Action (Unit {0})
throw_if c e w = (if c then err e else ok tt, w)
