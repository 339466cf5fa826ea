-- ===== src/Statements/Processor/Failures.antt =====
-- Proofs about `onFailed` of src/module/statements/statements.processor.ts and the errors of
-- `process`.
use lexi_ledger_backend.Base.{
  ℕ, ◌+◌, String, ◌≡◌, refl, true, none, some, arith, ◌||◌, leb, get_or_else, if◌then◌else◌,
}
use lexi_ledger_backend.Schema.{UploadStatement, processing, failed}
use lexi_ledger_backend.Platform.{World, ok, err, Exception, unrecoverable, Job, Env}
use lexi_ledger_backend.Statements.{with_status, storage_download}
use lexi_ledger_backend.Statements.Processor.{
  extract_and_store, classify, includes, message_of, process_found, process, is_unrecoverable,
  on_failed,
}
use lexi_ledger_backend.Statements.Processor.Jobs.{
  stored, set_status, stored-set_status, update_status_lem, process_start, IsReadable,
}

module _ (env : Env) where
  -- After a failed attempt the statement is marked as failed, with the message, exactly if the
  -- error is unrecoverable or no attempt is left; otherwise nothing changes and the job is tried
  -- again.
  pub on_failed_lem :
      (job : Job) (e : Exception) (w : World) {s : UploadStatement}
      → stored job.statement_id w ≡ some s
      → on_failed env (some job) e w ≡ (
        ok tt,
        if is_unrecoverable env e || leb (get_or_else job.attempts 1) job.attempts_made
            then set_status job.statement_id failed (some (message_of env e)) w
            else w,
      )
  unfolding on_failed
  on_failed_lem job e w found =
      ground
        (arith, update_status_lem env job.statement_id failed (some (message_of env e)) w found)

  -- The world after an attempt that Gemini has refused.
  abbrev refused : ℕ → World → World
  refused id w = record w {
    upload_statements = (set_status id processing none w).upload_statements;
    draws = w.draws + 1;
  }

  process_quota :
      (job : Job) (s : UploadStatement) (text : String) (e : Exception) (w : World)
      → IsReadable env job.statement_id s text w
      → env.gemini w.draws text ≡ err e
      → includes "per day" (message_of env e) ≡ true
      → process env job w ≡ (err (unrecoverable (message_of env e)), refused job.statement_id w)
  unfolding process_found storage_download extract_and_store classify
  process_quota job s text e w r answer daily =
      rw (process_start env job w r.found)
        (ground (arith, r.downloaded, r.extracted, r.legible, answer, daily))

  -- An error of Gemini that names a quota per day fails the statement at once, however many
  -- attempts are left; the transactions are as they were.
  pub daily_quota_fails_at_once :
      (job : Job) (s : UploadStatement) (text : String) (e : Exception) (w : World)
      → IsReadable env job.statement_id s text w
      → env.gemini w.draws text ≡ err e
      → includes "per day" (message_of env e) ≡ true
      → let (thrown, w') = process env job w in
        let (_, w'') = on_failed env (some job) (unrecoverable (message_of env e)) w' in
        (thrown ≡ err (unrecoverable (message_of env e)))
        × (w''.transactions ≡ w.transactions)
        × (stored job.statement_id w''
            ≡ some (with_status failed (some (message_of env e)) (with_status processing none s)))
  daily_quota_fails_at_once job s text e w r answer daily =
      let found : stored job.statement_id (refused job.statement_id w)
          ≡ some (with_status processing none s) =
        stored-set_status job.statement_id processing none w r.found in
      rw
        (
          process_quota job s text e w r answer daily,
          on_failed_lem job (unrecoverable (message_of env e)) (refused job.statement_id w) found,
        )
        (
          refl,
          refl,
          stored-set_status job.statement_id failed (some (message_of env e))
              (refused job.statement_id w) found,
        )
