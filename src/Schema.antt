-- ===== src/Schema.antt =====
-- The tables of prisma/schema.prisma, one record for a row of each. An identifier is a uuid that
-- is only compared and stands as a number; a `DateTime` is its milliseconds
-- from the start of the calendar (Calendar.antt).
use lexi_ledger_backend.Base.{ℕ, String, Option}
use lexi_ledger_backend.Base.Int.{ℤ}

pub data Role : Type 0 where
  user admin : Role

pub data StatementStatus : Type 0 where
  pending processing parsed failed : StatementStatus

pub data TransactionType : Type 0 where
  debit credit : TransactionType

pub data TransactionCategory : Type 0 where
  food transport rent utilities subscriptions shopping entertainment income other :
      TransactionCategory

pub record User : Type 0 where
  pub id : ℕ
  pub name : String
  pub email : String
  pub password_hash : String
  pub role : Role
  pub email_verified_at : Option ℕ

pub record RefreshToken : Type 0 where
  pub id : ℕ
  pub user_id : ℕ
  pub token_hash : String
  pub expires_at : ℕ
  pub revoked_at : Option ℕ

-- A row of `PasswordResetToken` or of `EmailVerificationToken`: the two tables have one shape.
pub record OneTimeToken : Type 0 where
  pub id : ℕ
  pub user_id : ℕ
  pub token_hash : String
  pub used_at : Option ℕ
  pub expires_at : ℕ

pub record UploadStatement : Type 0 where
  pub id : ℕ
  pub user_id : ℕ
  pub filename : String
  pub content_hash : String
  pub storage_path : String
  pub status : StatementStatus
  pub failure_reason : Option String
  pub uploaded_at : ℕ

-- A JavaScript number, as the bit pattern of its double. Only the functions of `Env` compute with
-- it.
abbrev pub Number : Type 0
Number = ℕ

pub record Transaction : Type 0 where
  pub id : ℕ
  pub user_id : ℕ
  pub statement_id : ℕ
  pub date : ℕ
  pub description : String
  pub amount : ℤ
  pub type : TransactionType
  pub category : TransactionCategory
  pub confidence : Number

pub record TransactionCorrection : Type 0 where
  pub id : ℕ
  pub transaction_id : ℕ
  pub user_id : ℕ
  pub previous_category : TransactionCategory
  pub new_category : TransactionCategory
  pub corrected_at : ℕ

pub record Budget : Type 0 where
  pub id : ℕ
  pub user_id : ℕ
  pub category : TransactionCategory
  pub monthly_limit : ℕ
