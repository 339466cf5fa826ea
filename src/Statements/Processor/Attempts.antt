-- ===== src/Statements/Processor/Attempts.antt =====
-- Proofs about all branches of `process` of src/module/statements/statements.processor.ts.
use lexi_ledger_backend.Base.{
  ℕ, String, ◌≡◌, inl, inr, refl, true, false, none, some, List, ◌++◌, arith, Bool-cases,
  Option-cases,
}
use lexi_ledger_backend.Schema.{UploadStatement, Transaction, processing, parsed}
use lexi_ledger_backend.Platform.{
  error, refusal_of, World, Result, ok, err, Exception, Job, Env, RawTransaction,
}
use lexi_ledger_backend.Transactions.{new_rows, dates_of, amounts_of}
use lexi_ledger_backend.Statements.{no_extractable_text, with_status, storage_download, object_at}
use lexi_ledger_backend.Statements.Processor.{
  catch_classify, extract_and_store, transactions_data, validate_all, ExtractedTransaction,
  process_found, process, is_blank, classify,
}
use lexi_ledger_backend.Statements.Processor.Jobs.{
  stored, set_status, stored-set_status, process_start, store_validated, extract_fails, invalid,
  unstorable, IsRefusedWith,
}

module _ (env : Env) where
  -- The rows that one valid answer of Gemini gives for a statement stand after those of before.
  pub record IsStored (before : List Transaction) (s : UploadStatement) (after : List Transaction)
      : Type 0 where
    pub draw : ℕ
    pub statement_text : String
    pub raws : List RawTransaction
    pub answered : env.gemini draw statement_text ≡ ok raws
    pub ts : List ExtractedTransaction
    pub valid : validate_all env raws ≡ ok ts
    pub first_id : ℕ
    pub rows : after ≡ before ++ new_rows env first_id (transactions_data env s ts)

  -- What an attempt leaves of the statement and of the transactions: with no error, the statement
  -- is parsed and its rows are added; with an error, the statement is there and no row is added.
  abbrev pub IsAttempted : ℕ → World → Result (Unit {0}) × World → Type 0
  IsAttempted id w (ok _, w') =
      (s : UploadStatement) × (stored id w' ≡ some s)
      × (s.status ≡ parsed)
      × IsStored w.transactions s w'.transactions
  IsAttempted id w (err e, w') =
      (s : UploadStatement) × (stored id w' ≡ some s) × (w'.transactions ≡ w.transactions)

  module _ (id : ℕ) (s : UploadStatement) (text : String) (w : World)
      (found : stored id w ≡ some s) where
    refused-IsAttempted :
        (raws : List RawTransaction) (e : Exception)
        → env.gemini w.draws text ≡ ok raws
        → IsRefusedWith env s raws e
        → IsAttempted id w (extract_and_store env s id text w)
    refused-IsAttempted raws e answer refused =
        rw (extract_fails env id s text raws e w answer refused) (s, found, refl)

    stored-IsAttempted :
        (raws : List RawTransaction) (ts : List ExtractedTransaction)
        → env.gemini w.draws text ≡ ok raws
        → validate_all env raws ≡ ok ts
        → refusal_of
            (dates_of (transactions_data env s ts))
            (amounts_of (transactions_data env s ts))
          ≡ none
        → IsAttempted id w (extract_and_store env s id text w)
    stored-IsAttempted raws ts answer valid fit =
        rw (store_validated env id s text raws ts w answer valid fit found) (
          with_status parsed none s,
          stored-set_status id parsed none w found,
          refl,
          record {
            draw = w.draws;
            statement_text = text;
            raws = raws;
            answered = answer;
            ts = ts;
            valid = valid;
            first_id = w.ids;
            rows = refl;
          },
        )

    checked-IsAttempted :
        (raws : List RawTransaction) (checked : Result (List ExtractedTransaction))
        → env.gemini w.draws text ≡ ok raws
        → validate_all env raws ≡ checked
        → IsAttempted id w (extract_and_store env s id text w)
    checked-IsAttempted raws (err e) answer h = refused-IsAttempted raws e answer (invalid h)
    checked-IsAttempted raws (ok ts) answer h =
        elim (Option-cases (
          refusal_of (dates_of (transactions_data env s ts))
            (amounts_of (transactions_data env s ts)))) [
              | inl fit ↦ stored-IsAttempted raws ts answer h fit
              | inr (code, refused) ↦ refused-IsAttempted raws _ answer (unstorable ts h refused)
            ]

    answered-IsAttempted :
        (answer : Result (List RawTransaction))
        → env.gemini w.draws text ≡ answer
        → IsAttempted id w (extract_and_store env s id text w)
    unfolding extract_and_store
    answered-IsAttempted (ok raws) h = checked-IsAttempted raws (validate_all env raws) h refl
    answered-IsAttempted (err e) h = rw h (s, found, refl)

    caught-IsAttempted :
        (result : Result (Unit {0}) × World)
        → IsAttempted id w result
        → IsAttempted id w (elim result.0 as (λ _. Result (Unit {0}) × World) [
          | ok a ↦ (ok a, result.1)
          | err e ↦ (err (classify env e), result.1)
        ])
    caught-IsAttempted (ok a, w') h = h
    caught-IsAttempted (err e, w') h = h

  module _ (id : ℕ) (s : UploadStatement) (w : World) (found : stored id w ≡ some s) where
    process_missing :
        object_at s.storage_path w.objects ≡ none
        → process_found env id (some s) w ≡ (err (error "NoSuchKey"), w)
    unfolding process_found storage_download
    process_missing missing = ground arith

    process_unread :
        (body : String) {e : Exception}
        → object_at s.storage_path w.objects ≡ some body
        → env.pdf_text body ≡ err e
        → process_found env id (some s) w ≡ (err e, w)
    unfolding process_found storage_download
    process_unread body there h = ground arith

    process_blank :
        (body text : String)
        → object_at s.storage_path w.objects ≡ some body
        → env.pdf_text body ≡ ok text
        → is_blank text ≡ true
        → process_found env id (some s) w ≡ (err (error no_extractable_text), w)
    unfolding process_found storage_download
    process_blank body text there h blank = ground arith

    process_legible :
        (body text : String)
        → object_at s.storage_path w.objects ≡ some body
        → env.pdf_text body ≡ ok text
        → is_blank text ≡ false
        → process_found env id (some s) w ≡ catch_classify env (extract_and_store env s id text) w
    unfolding process_found storage_download
    process_legible body text there h legible = ground arith

    read-IsAttempted :
        (body : String) (read : Result String)
        → object_at s.storage_path w.objects ≡ some body
        → env.pdf_text body ≡ read
        → IsAttempted id w (process_found env id (some s) w)
    read-IsAttempted body (err e) there h = rw (process_unread body there h) (s, found, refl)
    read-IsAttempted body (ok text) there h = elim (Bool-cases (is_blank text)) [
      | inl blank ↦ rw (process_blank body text there h blank) (s, found, refl)
      | inr legible ↦ rw (process_legible body text there h legible) (
          caught-IsAttempted id s text w found (extract_and_store env s id text w)
            (answered-IsAttempted id s text w found (env.gemini w.draws text) refl))
    ]

    found-IsAttempted : IsAttempted id w (process_found env id (some s) w)
    found-IsAttempted = elim (Option-cases (object_at s.storage_path w.objects)) [
      | inl missing ↦ rw (process_missing missing) (s, found, refl)
      | inr (body, there) ↦ read-IsAttempted body (env.pdf_text body) there refl
    ]

  -- An attempt at a stored statement ends with the statement parsed and its rows added, or with an
  -- error, the statement still there and no row added.
  pub process-IsAttempted :
      (job : Job) (w : World) {s : UploadStatement}
      → stored job.statement_id w ≡ some s
      → IsAttempted job.statement_id w (process env job w)
  process-IsAttempted job w {s} found = rw (process_start env job w found) (
      found-IsAttempted job.statement_id (with_status processing none s)
        (set_status job.statement_id processing none w)
        (stored-set_status job.statement_id processing none w found))
