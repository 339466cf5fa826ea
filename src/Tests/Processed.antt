-- ===== src/Tests/Processed.antt =====
-- Examples for the processing of a statement and the access to it: the PDF's text is its content, and Gemini answers
-- with one bus fare.
use lexi_ledger_backend.Base.{List, ◌≡◌, refl, true, none, some, [], ◌∷◌, ◌++◌}
use lexi_ledger_backend.Schema.{
  Transaction, UploadStatement, pending, failed, debit, transport, processing,
}
use lexi_ledger_backend.Platform.{
  World, Env, ok, err, Job, error, unrecoverable, RawTransaction, text, number,
}
use lexi_ledger_backend.Platform.Memory.{memory, empty}
use lexi_ledger_backend.Transactions.{new_rows, dates_of, amounts_of, CreateTransactionInput}
use lexi_ledger_backend.Statements.{with_status}
use lexi_ledger_backend.Statements.Processor.{
  to_kobo, ExtractedTransaction, validate, validate_all, transactions_data, process, classify,
  on_failed, is_blank, includes, starts_with, invalid_message,
}
use lexi_ledger_backend.Statements.Processor.Jobs.{
  invalid, IsReadable, stored, set_status, process_rejects_all, process_again_doubles,
}
use lexi_ledger_backend.Statements.Processor.Failures.{daily_quota_fails_at_once}
use lexi_ledger_backend.Platform.{not_found, refusal_of}
use lexi_ledger_backend.Statements.{get_stats, get_transactions, get_by_id, statement_not_found}
use lexi_ledger_backend.Statements.Access.{
  foreign_statement_hidden, is_of_statement, own_statement_counted,
}
use lexi_ledger_backend.Transactions.{Stats, Page}
use lexi_ledger_backend.Transactions.Totals.{AreTotals}

abbrev august_statement : UploadStatement
august_statement = record {
  id = 3;
  user_id = 7;
  filename = "august.pdf";
  content_hash = "#pages";
  storage_path = "key.pdf";
  status = pending;
  failure_reason = none;
  uploaded_at = 900;
}

abbrev pub waiting : World
waiting = record empty {
  upload_statements = august_statement ∷ [];
  objects = ("key.pdf", "pages") ∷ [];
}

abbrev pub first_try : Job
first_try = record { statement_id = 3; attempts = some 3; attempts_made = 1 }

abbrev bus_fare : RawTransaction
bus_fare = record {
  date = text "2025-08-01";
  description = text "Bus fare";
  amount = number 12;
  type = text "debit";
  category = text "transport";
  confidence = number 1;
}

abbrev extracted_fare : ExtractedTransaction
extracted_fare = record {
  date = "2025-08-01";
  description = "Bus fare";
  amount = 12;
  type = debit;
  category = transport;
  confidence = 1;
}

august-IsReadable : IsReadable memory 3 august_statement "pages" waiting
unfolding is_blank
august-IsReadable = record {
  body = "pages";
  found = refl;
  downloaded = refl;
  extracted = refl;
  legible = refl;
}

fare_is_valid : validate_all memory (bus_fare ∷ []) ≡ ok (extracted_fare ∷ [])
unfolding validate_all validate
fare_is_valid = refl

abbrev fare_data : List CreateTransactionInput
fare_data = transactions_data memory august_statement (extracted_fare ∷ [])

fare_fits : refusal_of (dates_of fare_data) (amounts_of fare_data) ≡ none
unfolding to_kobo
fare_fits = refl

process_again_doubles_example :
    let (_, w') = process memory first_try waiting in
    let (again, w'') = process memory first_try w' in
    (again ≡ ok tt)
    × (w''.transactions
        ≡ ([]
            ++ new_rows memory 0 (transactions_data memory august_statement (extracted_fare ∷ [])))
          ++ new_rows memory w'.ids
              (transactions_data memory august_statement (extracted_fare ∷ [])))
process_again_doubles_example =
    process_again_doubles memory first_try august_statement "pages" (bus_fare ∷ [])
      (extracted_fare ∷ []) waiting august-IsReadable refl refl fare_is_valid fare_fits

-- An answer whose second element has no category of the schema.
abbrev bad_fare : RawTransaction
bad_fare = record bus_fare { category = text "bus" }

-- The services with such an answer, and with a quota that is used up.
abbrev misled : Env
misled = record memory { gemini = λ k t. ok (bus_fare ∷ bad_fare ∷ []) }

abbrev exhausted : Env
exhausted = record memory { gemini = λ k t. err (error "5 per day") }

august-IsReadable-misled : IsReadable misled 3 august_statement "pages" waiting
unfolding is_blank
august-IsReadable-misled = record {
  body = "pages";
  found = refl;
  downloaded = refl;
  extracted = refl;
  legible = refl;
}

august-IsReadable-exhausted : IsReadable exhausted 3 august_statement "pages" waiting
unfolding is_blank
august-IsReadable-exhausted = record {
  body = "pages";
  found = refl;
  downloaded = refl;
  extracted = refl;
  legible = refl;
}

fares_are_invalid :
    validate_all misled (bus_fare ∷ bad_fare ∷ []) ≡ err (error (invalid_message misled bad_fare))
unfolding validate_all validate
fares_are_invalid = refl

process_rejects_all_example : process misled first_try waiting ≡ (
  err (classify misled (error (invalid_message misled bad_fare))),
  record waiting {
    upload_statements = (set_status 3 processing none waiting).upload_statements;
    draws = 1;
  },
)
process_rejects_all_example =
    process_rejects_all misled first_try august_statement "pages" (bus_fare ∷ bad_fare ∷ [])
      (error (invalid_message misled bad_fare)) waiting august-IsReadable-misled refl
      (invalid fares_are_invalid)

names_a_day : includes "per day" "5 per day" ≡ true
unfolding includes starts_with
names_a_day = refl

daily_quota_fails_at_once_example :
    let (thrown, w') = process exhausted first_try waiting in
    let (_, w'') = on_failed exhausted (some first_try) (unrecoverable "5 per day") w' in
    (thrown ≡ err (unrecoverable "5 per day"))
    × (w''.transactions ≡ [])
    × (stored 3 w''
        ≡ some
            (with_status failed (some "5 per day") (with_status processing none august_statement)))
daily_quota_fails_at_once_example =
    daily_quota_fails_at_once exhausted first_try august_statement "pages" (error "5 per day")
      waiting august-IsReadable-exhausted refl names_a_day

-- The statement is not of user 8.
foreign_statement_hidden_example :
    (get_stats memory 3 8 waiting ≡ (err (not_found statement_not_found), waiting))
    × (get_transactions memory 3 8 (record { page = 1; limit = 20 }) waiting
        ≡ (err (not_found statement_not_found), waiting))
    × (get_by_id memory 3 8 waiting ≡ (ok none, waiting))
foreign_statement_hidden_example =
    foreign_statement_hidden memory 3 8 (record { page = 1; limit = 20 }) waiting refl

-- The statement with the row of its fare.
abbrev with_fare : World
with_fare = record waiting { transactions = new_rows memory 0 fare_data }

own_statement_counted_example :
    (s : Stats) × (p : Page Transaction) × (get_stats memory 3 7 with_fare ≡ (ok s, with_fare))
    × (get_transactions memory 3 7 (record { page = 1; limit = 20 }) with_fare ≡ (ok p, with_fare))
    × AreTotals memory (is_of_statement 3 7) with_fare s
    × (p.total ≡ s.total_transactions)
own_statement_counted_example =
    own_statement_counted memory 3 7 (record { page = 1; limit = 20 }) with_fare refl
