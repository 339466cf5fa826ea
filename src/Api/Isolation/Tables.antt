-- ===== src/Api/Isolation/Tables.antt =====
-- The relation of Api/Isolation.antt where one table is written, for the proofs about the services
-- of src/module.
use lexi_ledger_backend.Base.{ℕ, ◌+◌, String, Bool, List, ◌≡◌, ◌∙◌}
use lexi_ledger_backend.Schema.{
  User, RefreshToken, UploadStatement, Transaction, TransactionCorrection, Budget,
}
use lexi_ledger_backend.Platform.{Job, World, Action, Env, throw_if, Exception, now, new_id}
use lexi_ledger_backend.Platform.Keeps.{Keeps}
use lexi_ledger_backend.Api.Isolation.{
  SameForOthers, users_but, refresh_tokens_but, statements_but, transactions_but, corrections_but,
  budgets_but,
}

module _ (env : Env) (user_id : ℕ) (before : World) where
  abbrev pub KeepsOthers : {A : Type 0} → Action A → Type 0
  KeepsOthers m = Keeps (SameForOthers user_id before) m

  -- What no row is written by.
  abbrev pub same_rows :
      (w : World) (reads draws ids : ℕ) (objects : List (String × String))
      → SameForOthers user_id before w
      → SameForOthers user_id before
          (record w { reads = reads; draws = draws; ids = ids; objects = objects })
  same_rows w reads draws ids objects h = record {
    users = h.users;
    refresh_tokens = h.refresh_tokens;
    password_reset_tokens = h.password_reset_tokens;
    email_verification_tokens = h.email_verification_tokens;
    upload_statements = h.upload_statements;
    transactions = h.transactions;
    corrections = h.corrections;
    budgets = h.budgets;
    sent = h.sent;
  }

  pub Keeps-now : KeepsOthers (now env)
  Keeps-now = record { at = λ w h. same_rows w (w.reads + 1) w.draws w.ids w.objects h }

  pub Keeps-new_id : KeepsOthers (new_id env)
  Keeps-new_id = record { at = λ w h. same_rows w w.reads w.draws (w.ids + 1) w.objects h }

  pub Keeps-throw_if : (c : Bool) (e : Exception) → KeepsOthers (throw_if c e)
  Keeps-throw_if c e = record { at = λ w h. h }

  -- A table is written, with the same rows of the others as before.
  pub with_users :
      (w : World) (rows : List User)
      → users_but user_id (record w { users = rows }) ≡ users_but user_id w
      → SameForOthers user_id before w
      → SameForOthers user_id before (record w { users = rows })
  with_users w rows e h = record {
    users = e ∙ h.users;
    refresh_tokens = h.refresh_tokens;
    password_reset_tokens = h.password_reset_tokens;
    email_verification_tokens = h.email_verification_tokens;
    upload_statements = h.upload_statements;
    transactions = h.transactions;
    corrections = h.corrections;
    budgets = h.budgets;
    sent = h.sent;
  }

  pub with_refresh_tokens :
      (w : World) (rows : List RefreshToken)
      → refresh_tokens_but user_id (record w { refresh_tokens = rows })
        ≡ refresh_tokens_but user_id w
      → SameForOthers user_id before w
      → SameForOthers user_id before (record w { refresh_tokens = rows })
  with_refresh_tokens w rows e h = record {
    users = h.users;
    refresh_tokens = e ∙ h.refresh_tokens;
    password_reset_tokens = h.password_reset_tokens;
    email_verification_tokens = h.email_verification_tokens;
    upload_statements = h.upload_statements;
    transactions = h.transactions;
    corrections = h.corrections;
    budgets = h.budgets;
    sent = h.sent;
  }

  pub with_upload_statements :
      (w : World) (rows : List UploadStatement)
      → statements_but user_id (record w { upload_statements = rows }) ≡ statements_but user_id w
      → SameForOthers user_id before w
      → SameForOthers user_id before (record w { upload_statements = rows })
  with_upload_statements w rows e h = record {
    users = h.users;
    refresh_tokens = h.refresh_tokens;
    password_reset_tokens = h.password_reset_tokens;
    email_verification_tokens = h.email_verification_tokens;
    upload_statements = e ∙ h.upload_statements;
    transactions = h.transactions;
    corrections = h.corrections;
    budgets = h.budgets;
    sent = h.sent;
  }

  pub with_budgets :
      (w : World) (rows : List Budget)
      → budgets_but user_id (record w { budgets = rows }) ≡ budgets_but user_id w
      → SameForOthers user_id before w
      → SameForOthers user_id before (record w { budgets = rows })
  with_budgets w rows e h = record {
    users = h.users;
    refresh_tokens = h.refresh_tokens;
    password_reset_tokens = h.password_reset_tokens;
    email_verification_tokens = h.email_verification_tokens;
    upload_statements = h.upload_statements;
    transactions = h.transactions;
    corrections = h.corrections;
    budgets = e ∙ h.budgets;
    sent = h.sent;
  }

  pub with_corrected :
      (w : World) (rows : List Transaction) (cs : List TransactionCorrection)
      → transactions_but user_id (record w { transactions = rows; corrections = cs })
        ≡ transactions_but user_id w
      → corrections_but user_id (record w { transactions = rows; corrections = cs })
        ≡ corrections_but user_id w
      → SameForOthers user_id before w
      → SameForOthers user_id before (record w { transactions = rows; corrections = cs })
  with_corrected w rows cs e k h = record {
    users = h.users;
    refresh_tokens = h.refresh_tokens;
    password_reset_tokens = h.password_reset_tokens;
    email_verification_tokens = h.email_verification_tokens;
    upload_statements = h.upload_statements;
    transactions = e ∙ h.transactions;
    corrections = k ∙ h.corrections;
    budgets = h.budgets;
    sent = h.sent;
  }

  pub queued :
      (w : World) (queue : List Job)
      → SameForOthers user_id before w
      → SameForOthers user_id before (record w { queue = queue })
  queued w queue h = record {
    users = h.users;
    refresh_tokens = h.refresh_tokens;
    password_reset_tokens = h.password_reset_tokens;
    email_verification_tokens = h.email_verification_tokens;
    upload_statements = h.upload_statements;
    transactions = h.transactions;
    corrections = h.corrections;
    budgets = h.budgets;
    sent = h.sent;
  }
