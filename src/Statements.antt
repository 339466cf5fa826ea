-- ===== src/Statements.antt =====
-- src/module/statements and src/storage: the upload of a statement, its place in the queue, and
-- the queries on it.
pub mod Processor
pub mod Uploads
pub mod Access
use lexi_ledger_backend.Base.{
  ℕ, ◌+◌, ◌-◌, ◌*◌, String, Bool, true, false, Option, none, some, List, [], ◌∷◌, ◌++◌, ◌==◌, ◌&&◌,
  if◌then◌else◌, not, str_eq,
}
use Prim.Native.String
use lexi_ledger_backend.Schema.{UploadStatement, StatementStatus, pending, Transaction}
use lexi_ledger_backend.Platform.{
  World, Action, Job, ok, pure, gets, throw, throw_if, modify, ◌>>=◌, ◌>>◌, not_found, bad_request,
  error, prisma, p2002, p2025, Env, now, new_id,
}
use lexi_ledger_backend.Transactions
use lexi_ledger_backend.Transactions.{Pagination, Page, Stats, DateRange, ceil_div, page_of}

-- MAX_FILE_SIZE_BYTES
abbrev pub max_file_size_bytes : ℕ
max_file_size_bytes = 10 * 1024 * 1024

-- STATEMENTS_MESSAGES
abbrev pub only_pdf : String
only_pdf = "Only PDF files are accepted"

abbrev pub statement_not_found : String
statement_not_found = "Statement not found"

abbrev pub no_extractable_text : String
no_extractable_text = "No extractable text found in PDF (possibly scanned/image-only)"

abbrev pub invalid_gemini_transaction : String
invalid_gemini_transaction = "Gemini returned an invalid transaction"

-- The fields of `Express.Multer.File` that the code reads.
pub record File : Type 0 where
  pub mimetype : String
  pub buffer : String
  pub original_name : String
  pub size : ℕ

-- `CreateUploadStatementInput`
pub record CreateUploadStatementInput : Type 0 where
  pub user_id : ℕ
  pub filename : String
  pub content_hash : String
  pub storage_path : String

-- `userId_contentHash: { userId, contentHash }`
abbrev pub has_content : ℕ → String → UploadStatement → Bool
has_content user_id content_hash s = s.user_id == user_id && str_eq s.content_hash content_hash

-- The unique keys are `id` and the pair of `userId` and `contentHash`.
abbrev pub clash : UploadStatement → UploadStatement → Bool
clash a b = if a.id == b.id then true else has_content a.user_id a.content_hash b

-- The row that `create` writes: it is pending.
abbrev pub new_row : ℕ → ℕ → CreateUploadStatementInput → UploadStatement
new_row id t input = record {
  id = id;
  user_id = input.user_id;
  filename = input.filename;
  content_hash = input.content_hash;
  storage_path = input.storage_path;
  status = pending;
  failure_reason = none;
  uploaded_at = t;
}

-- `data: { status, failureReason: failureReason ?? null }`
abbrev pub with_status : StatementStatus → Option String → UploadStatement → UploadStatement
with_status status failure_reason s = record s { status = status; failure_reason = failure_reason }

-- `where: { id, userId }`
abbrev pub is_of_user : ℕ → ℕ → UploadStatement → Bool
is_of_user id user_id s = s.id == id && s.user_id == user_id

-- `{ attempts: 3, ... }`: the options of a queued job.
abbrev pub job_for : ℕ → Job
job_for statement_id = record { statement_id = statement_id; attempts = some 3; attempts_made = 0 }

-- The object under a key of the bucket.
abbrev pub object_at : String → List (String × String) → Option String
object_at key [] = none
object_at key ((k, body) ∷ objects) = if str_eq k key then some body else object_at key objects

module _ (env : Env) where
  -- `StorageService`
  unfoldable pub storage_upload : (buffer extension : String) → Action String
  storage_upload buffer extension w =
      let key = String.◌++◌ (env.random_uuid w.draws) extension in
      (ok key, record w { objects = (key, buffer) ∷ w.objects; draws = w.draws + 1 })

  abbrev pub body_or_error : Option String → Action String
  body_or_error none = throw (error "NoSuchKey")
  body_or_error (some body) = pure body

  unfoldable pub storage_download : String → Action String
  storage_download key = do objects ← gets (λ w. w.objects); body_or_error (object_at key objects)

  -- The repository.
  unfoldable pub find_all_for_user : ℕ → (skip take : ℕ) → Action (List UploadStatement × ℕ)
  find_all_for_user user_id skip take = gets λ w. (
    page_of skip take (
        env.db.order_by (λ s. s.uploaded_at) (λ _. 0)
          (env.db.find_many (λ s. s.user_id == user_id) w.upload_statements)),
    env.db.count (λ s. s.user_id == user_id) w.upload_statements,
  )

  unfoldable pub find_by_id : ℕ → Action (Option UploadStatement)
  find_by_id id = gets (λ w. env.db.find_first (λ s. s.id == id) w.upload_statements)

  abbrev pub store_updated : Option (UploadStatement × List UploadStatement) → Action (Unit {0})
  store_updated none = throw (prisma p2025)
  store_updated (some (_, rows)) = modify λ w. record w { upload_statements = rows }

  unfoldable pub update_status : ℕ → StatementStatus → Option String → Action (Unit {0})
  update_status id status failure_reason = do
    rows ← gets (λ w. w.upload_statements)
    store_updated (env.db.update (λ s. s.id == id) (with_status status failure_reason) rows)

  unfoldable pub find_by_id_for_user : ℕ → ℕ → Action (Option UploadStatement)
  find_by_id_for_user id user_id =
      gets (λ w. env.db.find_first (is_of_user id user_id) w.upload_statements)

  abbrev pub store_created :
      UploadStatement → Option (List UploadStatement) → Action UploadStatement
  store_created s none = throw (prisma p2002)
  store_created s (some rows) = modify (λ w. record w { upload_statements = rows }) >> pure s

  unfoldable pub create : CreateUploadStatementInput → Action UploadStatement
  create input = do
    id ← new_id env
    t ← now env
    rows ← gets (λ w. w.upload_statements)
    store_created (new_row id t input) (env.db.create clash (new_row id t input) rows)

  unfoldable pub find_by_user_and_hash : ℕ → String → Action (Option UploadStatement)
  find_by_user_and_hash user_id content_hash =
      gets (λ w. env.db.find_first (has_content user_id content_hash) w.upload_statements)

  -- The service.
  abbrev pub enqueue : ℕ → Action (Unit {0})
  enqueue statement_id = modify λ w. record w { queue = w.queue ++ job_for statement_id ∷ [] }

  abbrev pub stats_found : ℕ → ℕ → Option UploadStatement → Action Stats
  stats_found id user_id none = throw (not_found statement_not_found)
  stats_found id user_id (some _) = Transactions.get_stats env user_id id

  unfoldable pub get_stats : (id user_id : ℕ) → Action Stats
  get_stats id user_id = do
    statement ← find_by_id_for_user id user_id
    stats_found id user_id statement

  abbrev pub transactions_found :
      ℕ → ℕ → Pagination → Option UploadStatement → Action (Page Transaction)
  transactions_found id user_id pagination none = throw (not_found statement_not_found)
  transactions_found id user_id pagination (some _) =
      Transactions.find_all env user_id pagination (some id) (record { start = none; end = none })

  unfoldable pub get_transactions : (id user_id : ℕ) → Pagination → Action (Page Transaction)
  get_transactions id user_id pagination = do
    statement ← find_by_id_for_user id user_id
    transactions_found id user_id pagination statement

  unfoldable pub find_all : ℕ → Pagination → Action (Page UploadStatement)
  find_all user_id pagination = do
    found ← find_all_for_user user_id ((pagination.page - 1) * pagination.limit) pagination.limit
    pure (record {
      rows = found.0;
      page = pagination.page;
      limit = pagination.limit;
      total = found.1;
      total_pages = ceil_div found.1 pagination.limit;
    })

  -- `getById` answers null, not an error, for a statement of another user.
  unfoldable pub get_by_id : (id user_id : ℕ) → Action (Option UploadStatement)
  get_by_id id user_id = find_by_id_for_user id user_id

  -- `upload` where no statement has the content yet.
  unfoldable pub upload_new : ℕ → File → String → Action UploadStatement
  upload_new user_id file content_hash = do
    storage_key ← storage_upload file.buffer (env.extname file.original_name)
    statement ← create (record {
      user_id = user_id;
      filename = file.original_name;
      content_hash = content_hash;
      storage_path = storage_key;
    })
    enqueue statement.id
    pure statement

  abbrev pub upload_found : ℕ → File → String → Option UploadStatement → Action UploadStatement
  upload_found user_id file content_hash (some existing) = pure existing
  upload_found user_id file content_hash none = upload_new user_id file content_hash

  unfoldable pub upload : ℕ → File → Action UploadStatement
  upload user_id file = do
    throw_if (not (str_eq file.mimetype "application/pdf")) (bad_request only_pdf)
    let content_hash = env.sha256 file.buffer
    existing ← find_by_user_and_hash user_id content_hash
    upload_found user_id file content_hash existing
