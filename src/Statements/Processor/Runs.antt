-- ===== src/Statements/Processor/Runs.antt =====
-- All attempts at a job, as the queue's worker makes them: `process` and `onFailed` of
-- src/module/statements/statements.processor.ts together.
use lexi_ledger_backend.Base.{
  ℕ, zero, suc, ◌+◌, ◌-◌, ◌≤◌, ◌≡◌, ◌⊎◌, inl, inr, refl, Bool, true, false, some, List, arith, ◌||◌,
  leb, get_or_else, is_some, if◌then◌else◌, Bool-cases,
}
use lexi_ledger_backend.Schema.{UploadStatement, Transaction, parsed, failed}
use lexi_ledger_backend.Platform.{
  World, Result, ok, err, Exception, Job, Env, unauthorized, not_found, conflict, bad_request,
  error, unrecoverable, prisma,
}
use lexi_ledger_backend.Statements.Processor.{process, is_unrecoverable, on_failed, message_of}
use lexi_ledger_backend.Statements.Processor.Jobs.{stored, stored-set_status}
use lexi_ledger_backend.Statements.Processor.Failures.{on_failed_lem}
use lexi_ledger_backend.Statements.Processor.Attempts.{IsStored, IsAttempted, process-IsAttempted}

module _ (env : Env) where
  -- The job once an attempt at it has failed, and whether the worker gives it up: it does on an
  -- `UnrecoverableError`, and once as many attempts are made as the job's option says, or one.
  abbrev pub failed_once : Job → Job
  failed_once job = record job { attempts_made = job.attempts_made + 1 }

  abbrev pub stops_retries : Exception → Bool
  stops_retries (unauthorized _) = false
  stops_retries (not_found _) = false
  stops_retries (conflict _) = false
  stops_retries (bad_request _) = false
  stops_retries (error _) = false
  stops_retries (unrecoverable _) = true
  stops_retries (prisma _) = false

  abbrev pub gives_up : Job → Exception → Bool
  gives_up job e = stops_retries e || leb (get_or_else job.attempts 1) job.attempts_made

  -- What the worker does with the outcome of an attempt: after an error it raises the event
  -- `failed`, and then runs the job again or gives it up.
  abbrev pub go_on : (Job → World → World) → Job → Result (Unit {0}) × World → World
  go_on run job (ok _, w) = w
  go_on run job (err e, w) =
      let w' = (on_failed env (some (failed_once job)) e w).1 in
      if gives_up (failed_once job) e then w' else run (failed_once job) w'

  -- The worker of bullmq, by its documented behaviour.
  pub record Worker : Type 0 where
    pub run : Job → World → World
    pub run_law : (job : Job) (w : World) → run job w ≡ go_on run job (process env job w)

  -- Parsed, with the rows of one valid answer after those of before, or failed with a reason and
  -- no row added.
  abbrev pub IsSettled : ℕ → List Transaction → World → Type 0
  IsSettled id before w =
      (s : UploadStatement) × (stored id w ≡ some s)
      × (((s.status ≡ parsed) × IsStored env before s w.transactions)
          ⊎ ((s.status ≡ failed) × (is_some s.failure_reason ≡ true) × (w.transactions ≡ before)))

  -- A worker that counts the attempts left.
  runs : ℕ → Job → World → World
  runs zero job w = w
  runs (suc left) job w = go_on (runs left) job (process env job w)

  left_after : Job → ℕ
  left_after job = get_or_else job.attempts 1 - (job.attempts_made + 1)

  go_on-runs :
      (job : Job) (result : Result (Unit {0}) × World)
      → go_on (runs (left_after job)) job result
        ≡ go_on (λ next. runs (suc (left_after next)) next) job result
  unfolding left_after
  go_on-runs job (ok _, w) = refl
  go_on-runs job (err e, w) = elim (Bool-cases (gives_up (failed_once job) e)) [
    | inl final ↦ rw final refl
    | inr again ↦
        let same : get_or_else job.attempts 1 - (job.attempts_made + 1)
            ≡ suc (get_or_else job.attempts 1 - (job.attempts_made + 1 + 1)) =
          ground arith in
        rw (again, same) refl
  ]

  -- A worker with that behaviour.
  pub counted : Worker
  unfolding runs
  counted = record {
    run = λ job. runs (suc (left_after job)) job;
    run_law = λ job w. go_on-runs job (process env job w);
  }

  module _ (worker : Worker) where
    -- The jobs with at most n attempts left after the next settle.
    abbrev Settles : ℕ → Type 0
    Settles n =
        (job : Job) (w : World) (s : UploadStatement)
        → get_or_else job.attempts 1 ≤ job.attempts_made + suc n
        → stored job.statement_id w ≡ some s
        → IsSettled job.statement_id w.transactions (worker.run job w)

    stops_when_unrecoverable : (e : Exception) → is_unrecoverable env e ≡ stops_retries e
    stops_when_unrecoverable (unauthorized _) = refl
    stops_when_unrecoverable (not_found _) = refl
    stops_when_unrecoverable (conflict _) = refl
    stops_when_unrecoverable (bad_request _) = refl
    stops_when_unrecoverable (error _) = refl
    stops_when_unrecoverable (unrecoverable _) = refl
    stops_when_unrecoverable (prisma _) = refl

    given_up :
        (job : Job) (e : Exception) (w : World) {s : UploadStatement}
        → stored job.statement_id w ≡ some s
        → gives_up job e ≡ true
        → IsSettled job.statement_id w.transactions (on_failed env (some job) e w).1
    given_up job e w found final =
        rw (on_failed_lem env job e w found, stops_when_unrecoverable e, final)
          (
            _,
            stored-set_status job.statement_id failed (some (message_of env e)) w found,
            inr (refl, refl, refl),
          )

    kept_on :
        (job : Job) (e : Exception) (w : World) {s : UploadStatement}
        → stored job.statement_id w ≡ some s
        → gives_up job e ≡ false
        → (on_failed env (some job) e w).1 ≡ w
    kept_on job e w found final =
        rw (on_failed_lem env job e w found, stops_when_unrecoverable e, final) refl

    go_on-IsSettled :
        (job : Job) (before : World) (result : Result (Unit {0}) × World)
        → ((e : Exception) (w : World) (s : UploadStatement)
            → stored job.statement_id w ≡ some s
            → gives_up (failed_once job) e ≡ false
            → IsSettled job.statement_id w.transactions (worker.run (failed_once job) w))
        → IsAttempted env job.statement_id before result
        → IsSettled job.statement_id before.transactions (go_on worker.run job result)
    go_on-IsSettled job before (ok _, w) next (s, found, is_parsed, added) =
        (s, found, inl (is_parsed, added))
    go_on-IsSettled job before (err e, w) next (s, found, same) =
        elim (Bool-cases (gives_up (failed_once job) e)) [
          | inl final ↦ rw (final, ← same) (given_up (failed_once job) e w found final)
          | inr again ↦
              rw (again, kept_on (failed_once job) e w found again, ← same) (next e w s found again)
        ]

    settles : (n : ℕ) → Settles n
    settles zero job w s few found = rw (worker.run_law job w) (
        go_on-IsSettled job w (process env job w) (λ e w' s' found' again. absurd (ground arith))
          (process-IsAttempted env job w found))
    settles (suc n) job w s few found = rw (worker.run_law job w) (
        go_on-IsSettled job w (process env job w)
          (λ e w' s' found' again. settles n (failed_once job) w' s' (omega arith) found')
          (process-IsAttempted env job w found))

    -- Every run of a job for a stored statement, with its retries as bullmq documents them, ends
    -- with the statement parsed, and the rows of one valid answer of Gemini added after those of
    -- before, or failed with a reason, and no row added.
    pub run_settles :
        (job : Job) (w : World) {s : UploadStatement}
        → stored job.statement_id w ≡ some s
        → IsSettled job.statement_id w.transactions (worker.run job w)
    run_settles job w {s} found = settles (get_or_else job.attempts 1) job w s (omega arith) found
