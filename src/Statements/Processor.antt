-- ===== src/Statements/Processor.antt =====
-- src/module/statements/statements.processor.ts with the check of dto/extracted-transaction.dto.ts,
-- toKobo of src/common/utils/money.util.ts and the call of gemini.service.ts: one attempt at a job,
-- and what is done when an attempt has failed.
pub mod Jobs
pub mod Failures
pub mod Attempts
pub mod Runs
use Prim.Native.Char.{code}
use Prim.Native.String
use lexi_ledger_backend.Base.{
  ℕ, ◌+◌, String, Bool, true, false, Option, none, some, List, [], ◌∷◌, ◌==◌, ◌&&◌, ◌||◌,
  if◌then◌else◌, not, str_eq, leb, get_or_else,
}
use lexi_ledger_backend.Base.Int.{ℤ, pos}
use lexi_ledger_backend.Schema.{
  UploadStatement, processing, parsed, failed, TransactionType, debit, credit, TransactionCategory,
  food, transport, rent, utilities, subscriptions, shopping, entertainment, income, other, Number,
}
use lexi_ledger_backend.Platform.{
  World, Action, Result, ok, err, Job, Exception, unauthorized, not_found, conflict, bad_request,
  error, unrecoverable, prisma, pure, gets, throw, throw_if, ◌>>=◌, ◌>>◌, Env, JsonField, text,
  number, RawTransaction,
}
use lexi_ledger_backend.Transactions
use lexi_ledger_backend.Transactions.{CreateTransactionInput}
use lexi_ledger_backend.Statements.{
  statement_not_found, no_extractable_text, invalid_gemini_transaction, update_status, find_by_id,
  storage_download,
}

-- `text.trim().length === 0`: every code point is white space or a line terminator of ECMAScript.
abbrev pub is_space : ℕ → Bool
is_space c =
    (leb 9 c && leb c 13)
    || (c == 32
        || (c == 160
            || (c == 5760
                || ((leb 8192 c && leb c 8202)
                    || (c == 8232
                        || (c == 8233
                            || (c == 8239 || (c == 8287 || (c == 12288 || c == 65279)))))))))

unfoldable pub is_blank : String → Bool
is_blank String.[] = true
is_blank (String.◌∷◌ c s) = is_space (code c) && is_blank s

-- `s.includes(part)`
unfoldable pub starts_with : String → String → Bool
starts_with String.[] s = true
starts_with (String.◌∷◌ c part) String.[] = false
starts_with (String.◌∷◌ c part) (String.◌∷◌ d s) = code c == code d && starts_with part s

unfoldable pub includes : String → String → Bool
unfolding starts_with
includes part String.[] = starts_with part ""
includes part (String.◌∷◌ c s) = starts_with part (String.◌∷◌ c s) || includes part s

-- `Object.values(TransactionType)` and `Object.values(TransactionCategory)` by their texts.
abbrev pub type_of_text : String → Option TransactionType
type_of_text t =
    if str_eq t "debit" then some debit else if str_eq t "credit" then some credit else none

abbrev pub category_of_text : String → Option TransactionCategory
category_of_text t =
    if str_eq t "food"
    then some food
    else if str_eq t "transport"
    then some transport
    else if str_eq t "rent"
    then some rent
    else if str_eq t "utilities"
    then some utilities
    else if str_eq t "subscriptions"
    then some subscriptions
    else if str_eq t "shopping"
    then some shopping
    else if str_eq t "entertainment"
    then some entertainment
    else if str_eq t "income"
    then some income
    else if str_eq t "other"
    then some other
    else none

-- A transaction that has passed the check of `ExtractedTransactionDto`.
pub record ExtractedTransaction : Type 0 where
  pub date : String
  pub description : String
  pub amount : Number
  pub type : TransactionType
  pub category : TransactionCategory
  pub confidence : Number

infixl 6 ◌>>=?◌
abbrev ◌>>=?◌ : {A B : Type 0} → Option A → (A → Option B) → Option B
none >>=? k = none
some a >>=? k = k a

module _ (env : Env) where
  -- The checks of the dto, a member each: `IsISO8601`, `IsString`, `IsNumber`, `IsEnum`, and
  -- `IsNumber`, `Min(0)`, `Max(1)`.
  abbrev pub date_of : JsonField → Option String
  date_of (text t) = if env.is_iso8601 t then some t else none
  date_of (number n) = none
  date_of JsonField.other = none

  abbrev pub string_of : JsonField → Option String
  string_of (text t) = some t
  string_of (number n) = none
  string_of JsonField.other = none

  abbrev pub number_of : JsonField → Option Number
  number_of (number n) = if env.is_number n then some n else none
  number_of (text t) = none
  number_of JsonField.other = none

  abbrev pub in_unit_interval : Number → Option Number
  in_unit_interval n =
      if env.number_le (env.of_int (pos 0)) n && env.number_le n (env.of_int (pos 1))
      then some n
      else none

  -- `validate`: the transaction if there is no error.
  unfoldable pub validate : RawTransaction → Option ExtractedTransaction
  validate raw = date_of raw.date >>=? λ date. string_of raw.description >>=? λ description.
      number_of raw.amount >>=? λ amount. string_of raw.type >>=? λ type_text.
      type_of_text type_text >>=? λ type. string_of raw.category >>=? λ category_text.
      category_of_text category_text >>=? λ category. number_of raw.confidence >>=? λ n.
      in_unit_interval n >>=? λ confidence. some (record {
        date = date;
        description = description;
        amount = amount;
        type = type;
        category = category;
        confidence = confidence;
      })

  -- The message of the error: the validator's errors in JSON stand in it.
  abbrev pub invalid_message : RawTransaction → String
  invalid_message raw =
      String.◌++◌ invalid_gemini_transaction (String.◌++◌ ": " (env.validation_errors raw))

  abbrev pub cons_validated :
      ExtractedTransaction → Result (List ExtractedTransaction) → Result (List ExtractedTransaction)
  cons_validated t (ok ts) = ok (t ∷ ts)
  cons_validated t (err e) = err e

  abbrev pub validated_or_error :
      RawTransaction
      → Option ExtractedTransaction
      → Result (List ExtractedTransaction)
      → Result (List ExtractedTransaction)
  validated_or_error raw none rest = err (error (invalid_message raw))
  validated_or_error raw (some t) rest = cons_validated t rest

  -- The loop over the raw results stops at the first that has an error.
  unfoldable pub validate_all : List RawTransaction → Result (List ExtractedTransaction)
  validate_all [] = ok []
  validate_all (raw ∷ rest) = validated_or_error raw (validate raw) (validate_all rest)

  -- `toKobo`: the amount times a hundred, rounded.
  unfoldable pub to_kobo : Number → ℤ
  to_kobo amount = env.round (env.times amount (env.of_int (pos 100)))

  abbrev pub transaction_data : UploadStatement → ExtractedTransaction → CreateTransactionInput
  transaction_data statement t = record {
    user_id = statement.user_id;
    statement_id = statement.id;
    date = env.parse_date t.date;
    description = t.description;
    amount = to_kobo t.amount;
    type = t.type;
    category = t.category;
    confidence = t.confidence;
  }

  abbrev pub transactions_data :
      UploadStatement → List ExtractedTransaction → List CreateTransactionInput
  transactions_data statement [] = []
  transactions_data statement (t ∷ ts) =
      transaction_data statement t ∷ transactions_data statement ts

  -- `geminiService.extractTransactions`
  abbrev pub extract_transactions : String → Action (List RawTransaction)
  extract_transactions statement_text w =
      (env.gemini w.draws statement_text, record w { draws = w.draws + 1 })

  -- The body of the `try`.
  unfoldable pub extract_and_store : UploadStatement → ℕ → String → Action (Unit {0})
  extract_and_store statement statement_id statement_text = do
    raw_results ← extract_transactions statement_text
    validated ← λ w. (validate_all raw_results, w)
    Transactions.create_many env (transactions_data statement validated)
    update_status env statement_id parsed none

  -- `error.message`
  abbrev pub message_of : Exception → String
  message_of (unauthorized m) = m
  message_of (not_found m) = m
  message_of (conflict m) = m
  message_of (bad_request m) = m
  message_of (error m) = m
  message_of (unrecoverable m) = m
  message_of (prisma code) = env.prisma_message code

  -- The `catch`: a quota per day is not worth another attempt.
  pub classify : Exception → Exception
  classify e = if includes "per day" (message_of e) then unrecoverable (message_of e) else e

  abbrev pub catch_classify : Action (Unit {0}) → Action (Unit {0})
  catch_classify m w =
      let (r, w') = m w in elim r [ ok a ↦ (ok a, w') | err e ↦ (err (classify e), w') ]

  -- `process` once the statement is found.
  unfoldable pub process_found : ℕ → Option UploadStatement → Action (Unit {0})
  process_found statement_id none = throw (error statement_not_found)
  process_found statement_id (some statement) = do
    file_buffer ← storage_download env statement.storage_path
    statement_text ← λ w. (env.pdf_text file_buffer, w)
    throw_if (is_blank statement_text) (error no_extractable_text)
    catch_classify (extract_and_store statement statement_id statement_text)

  unfoldable pub process : Job → Action (Unit {0})
  process job = do
    update_status env job.statement_id processing none
    statement ← find_by_id env job.statement_id
    process_found job.statement_id statement

  -- `error instanceof UnrecoverableError || error.name === 'UnrecoverableError'`
  abbrev pub is_unrecoverable : Exception → Bool
  is_unrecoverable (unrecoverable _) = true
  is_unrecoverable _ = false

  -- `isPermanent`
  abbrev pub is_permanent : Job → Exception → Bool
  is_permanent job e = is_unrecoverable e || leb (get_or_else job.attempts 1) job.attempts_made

  -- `onFailed`, the handler of the worker's event `failed`.
  pub on_failed : Option Job → Exception → Action (Unit {0})
  on_failed none e = pure tt
  on_failed (some job) e =
      if is_permanent job e
      then update_status env job.statement_id failed (some (message_of e))
      else pure tt
