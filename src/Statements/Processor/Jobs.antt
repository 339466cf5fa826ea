-- ===== src/Statements/Processor/Jobs.antt =====
-- Proofs about `process` of src/module/statements/statements.processor.ts.
use mathlib.Core.Option
use lexi_ledger_backend.Base.{
  ℕ, ◌+◌, String, ◌≡◌, refl, ◌∙◌, ap, false, Option, none, some, List, ◌++◌, map, arith, ◌==◌,
  find?, find?-map, find?-holds, patch, length,
}
use lexi_ledger_backend.Schema.{UploadStatement, StatementStatus, processing, parsed}
use lexi_ledger_backend.Platform.{
  PrismaCode, refusal_of, prisma, World, ok, err, Exception, Job, RawTransaction, Env,
}
use lexi_ledger_backend.Transactions.{new_rows, dates_of, amounts_of, create_many}
use lexi_ledger_backend.Statements.{
  update_status, find_by_id, with_status, storage_download, object_at,
}
use lexi_ledger_backend.Statements.Processor.{
  ExtractedTransaction, validate_all, transactions_data, extract_and_store, classify, is_blank,
  process_found, process,
}

-- The statement with an id.
abbrev pub stored : ℕ → World → Option UploadStatement
stored id w = find? (λ s. s.id == id) w.upload_statements

-- The world with another status of a statement.
abbrev pub set_status : ℕ → StatementStatus → Option String → World → World
set_status id status reason w = record w {
  upload_statements = map (patch (λ s. s.id == id) (with_status status reason)) w.upload_statements;
}

pub stored-set_status :
    (id : ℕ) (status : StatementStatus) (reason : Option String) (w : World) {s : UploadStatement}
    → stored id w ≡ some s
    → stored id (set_status id status reason w) ≡ some (with_status status reason s)
stored-set_status id status reason w found =
    find?-map (λ x. x.id == id) (patch (λ x. x.id == id) (with_status status reason))
      w.upload_statements (λ x. ground arith)
    ∙ ap (Option.map (patch (λ x. x.id == id) (with_status status reason))) found
    ∙ ground (arith, find?-holds (λ x. x.id == id) w.upload_statements found)

module _ (env : Env) where
  pub update_status_lem :
      (id : ℕ) (status : StatementStatus) (reason : Option String) (w : World) {s : UploadStatement}
      → stored id w ≡ some s
      → update_status env id status reason w ≡ (ok tt, set_status id status reason w)
  unfolding update_status
  update_status_lem id status reason w found = ground (
    arith,
    env.db.update_law (λ x. x.id == id) (with_status status reason) w.upload_statements,
    found,
  )

  -- The statement is stored, its PDF is in the object store and has text.
  pub record IsReadable (id : ℕ) (s : UploadStatement) (text : String) (w : World) : Type 0 where
    pub body : String
    pub found : stored id w ≡ some s
    pub downloaded : object_at s.storage_path w.objects ≡ some body
    pub extracted : env.pdf_text body ≡ ok text
    pub legible : is_blank text ≡ false

  -- The world once the transactions are stored and the statement is parsed.
  abbrev pub after_process : ℕ → UploadStatement → List ExtractedTransaction → World → World
  after_process id s ts w = record w {
    upload_statements =
        (set_status id parsed none (set_status id processing none w)).upload_statements;
    transactions = w.transactions ++ new_rows env w.ids (transactions_data env s ts);
    ids = w.ids + length (transactions_data env s ts);
    draws = w.draws + 1;
  }

  pub find_by_id_lem : (id : ℕ) (w : World) → find_by_id env id w ≡ (ok (stored id w), w)
  unfolding find_by_id
  find_by_id_lem id w = rw env.db.find_first_law

  pub process_start :
      (job : Job) (w : World) {s : UploadStatement}
      → stored job.statement_id w ≡ some s
      → process env job w
        ≡ process_found env job.statement_id
            (some (with_status processing none s))
            (set_status job.statement_id processing none w)
  unfolding process
  process_start job w {s} found = ground (
    arith,
    update_status_lem job.statement_id processing none w found,
    find_by_id_lem job.statement_id (set_status job.statement_id processing none w),
    stored-set_status job.statement_id processing none w found,
  )

  pub store_validated :
      (id : ℕ) (s : UploadStatement) (text : String) (raws : List RawTransaction)
      (ts : List ExtractedTransaction) (w : World) {t : UploadStatement}
      → env.gemini w.draws text ≡ ok raws
      → validate_all env raws ≡ ok ts
      → refusal_of (dates_of (transactions_data env s ts)) (amounts_of (transactions_data env s ts))
        ≡ none
      → stored id w ≡ some t
      → extract_and_store env s id text w ≡ (
        ok tt,
        record w {
          upload_statements = (set_status id parsed none w).upload_statements;
          transactions = w.transactions ++ new_rows env w.ids (transactions_data env s ts);
          ids = w.ids + length (transactions_data env s ts);
          draws = w.draws + 1;
        },
      )
  unfolding extract_and_store create_many
  store_validated id s text raws ts w answer valid fit found = ground (
    arith,
    answer,
    valid,
    env.db.refusal_law (dates_of (transactions_data env s ts))
        (amounts_of (transactions_data env s ts)),
    fit,
    env.db.create_many_law (new_rows env w.ids (transactions_data env s ts)) w.transactions,
    update_status_lem id parsed none
        (record w {
          transactions =
              env.db.create_many (new_rows env w.ids (transactions_data env s ts)) w.transactions;
          ids = w.ids + length (transactions_data env s ts);
          draws = w.draws + 1;
        })
        found,
  )

  -- Why an answer that has come is refused: a transaction in it is invalid, or all are valid and
  -- the database client refuses a date (an Invalid Date) or an amount (out of its column's range).
  pub data IsRefusedWith (s : UploadStatement) (raws : List RawTransaction)
      : Exception → Type 0 where
    invalid : {e : Exception} → validate_all env raws ≡ err e → IsRefusedWith s raws e
    unstorable :
        (ts : List ExtractedTransaction) {code : PrismaCode}
        → validate_all env raws ≡ ok ts
        → refusal_of
            (dates_of (transactions_data env s ts))
            (amounts_of (transactions_data env s ts))
          ≡ some code
        → IsRefusedWith s raws (prisma code)

  refused_as_before :
      (s : UploadStatement) (raws : List RawTransaction) (status : StatementStatus) {e : Exception}
      → IsRefusedWith s raws e
      → IsRefusedWith (with_status status none s) raws e
  refused_as_before s raws status (invalid h) = invalid h
  refused_as_before s raws status (unstorable ts valid h) = unstorable ts valid h

  pub extract_fails :
      (id : ℕ) (s : UploadStatement) (text : String) (raws : List RawTransaction) (e : Exception)
      (w : World)
      → env.gemini w.draws text ≡ ok raws
      → IsRefusedWith s raws e
      → extract_and_store env s id text w ≡ (err e, record w { draws = w.draws + 1 })
  unfolding extract_and_store create_many
  extract_fails id s text raws e w answer (invalid h) = ground arith
  extract_fails id s text raws _ w answer (unstorable ts valid h) = ground (
    arith,
    env.db.refusal_law (dates_of (transactions_data env s ts))
        (amounts_of (transactions_data env s ts)),
    h,
  )

  pub process_stores_all :
      (job : Job) (s : UploadStatement) (text : String) (raws : List RawTransaction)
      (ts : List ExtractedTransaction) (w : World)
      → IsReadable job.statement_id s text w
      → env.gemini w.draws text ≡ ok raws
      → validate_all env raws ≡ ok ts
      → refusal_of (dates_of (transactions_data env s ts)) (amounts_of (transactions_data env s ts))
        ≡ none
      → process env job w ≡ (ok tt, after_process job.statement_id s ts w)
  unfolding process_found storage_download
  process_stores_all job s text raws ts w r answer valid fit = rw (process_start job w r.found) (
      ground (
        arith,
        r.downloaded,
        r.extracted,
        r.legible,
        store_validated job.statement_id (with_status processing none s) text raws ts
            (set_status job.statement_id processing none w) answer valid fit
            (stored-set_status job.statement_id processing none w r.found),
      ))

  -- If one transaction of Gemini's answer is invalid, or one date is an Invalid Date, or one amount
  -- is out of the range of its column, none is stored: the attempt throws, and all that has changed is that the statement is
  -- being processed.
  pub process_rejects_all :
      (job : Job) (s : UploadStatement) (text : String) (raws : List RawTransaction) (e : Exception)
      (w : World)
      → IsReadable job.statement_id s text w
      → env.gemini w.draws text ≡ ok raws
      → IsRefusedWith s raws e
      → process env job w ≡ (
        err (classify env e),
        record w {
          upload_statements = (set_status job.statement_id processing none w).upload_statements;
          draws = w.draws + 1;
        },
      )
  unfolding process_found storage_download
  process_rejects_all job s text raws e w r answer refused = rw (process_start job w r.found) (
      ground (
        arith,
        r.downloaded,
        r.extracted,
        r.legible,
        extract_fails job.statement_id (with_status processing none s) text raws e
            (set_status job.statement_id processing none w) answer
            (refused_as_before s raws processing refused),
      ))

  stored-patch_twice :
      (id : ℕ) (w : World) {s : UploadStatement} (ts : List ExtractedTransaction)
      → stored id w ≡ some s
      → stored id (after_process id s ts w)
        ≡ some (with_status parsed none (with_status processing none s))
  stored-patch_twice id w ts found =
      stored-set_status id parsed none (set_status id processing none w)
        (stored-set_status id processing none w found)

  -- An attempt takes no account of what an earlier attempt has stored: if a job whose dates and
  -- amounts the database client takes is run again after it has succeeded, and Gemini answers with
  -- the same transactions, they are stored twice.
  pub process_again_doubles :
      (job : Job) (s : UploadStatement) (text : String) (raws : List RawTransaction)
      (ts : List ExtractedTransaction) (w : World)
      → IsReadable job.statement_id s text w
      → env.gemini w.draws text ≡ ok raws
      → env.gemini (w.draws + 1) text ≡ ok raws
      → validate_all env raws ≡ ok ts
      → refusal_of (dates_of (transactions_data env s ts)) (amounts_of (transactions_data env s ts))
        ≡ none
      → let (_, w') = process env job w in
        let (again, w'') = process env job w' in
        (again ≡ ok tt)
        × (w''.transactions
            ≡ (w.transactions ++ new_rows env w.ids (transactions_data env s ts))
              ++ new_rows env w'.ids (transactions_data env s ts))
  process_again_doubles job s text raws ts w r answer answer' valid fit =
      let w' = after_process job.statement_id s ts w in
      let r' : IsReadable job.statement_id (with_status parsed none (with_status processing none s))
          text w' =
        record {
          body = r.body;
          found = stored-patch_twice job.statement_id w ts r.found;
          downloaded = r.downloaded;
          extracted = r.extracted;
          legible = r.legible;
        } in
      rw
        (
          process_stores_all job s text raws ts w r answer valid fit,
          process_stores_all job (with_status parsed none (with_status processing none s)) text raws
              ts w' r' answer' valid fit,
        )
        (refl, refl)
