-- ===== src/Api/Isolation/Ledger.antt =====
-- Proofs about src/module/transactions and src/module/statements: what the routes under
-- `JwtAuthGuard` write there is of rows of the user whose id they are given.
use lexi_ledger_backend.Base.{
  ℕ, ◌+◌, String, Bool, true, false, Option, none, some, [], ◌∷◌, ◌++◌, map, ◌≡◌, refl, ap, ◌∙◌,
  arith, any, find?, patch, if◌then◌else◌,
}
use lexi_ledger_backend.Schema.{
  UploadStatement, Transaction, TransactionCategory, TransactionCorrection,
}
use lexi_ledger_backend.Platform.{World, Env, throw_if}
use lexi_ledger_backend.Platform.Keeps.{Keeps-pure, Keeps-throw, Keeps-gets, Keeps-if, Keeps-bind}
use lexi_ledger_backend.Transactions
use lexi_ledger_backend.Statements
use lexi_ledger_backend.Statements.{File}
use mathlib.Core.Option
use lexi_ledger_backend.Api.Isolation.{SameForOthers, but, but-patch, but-append}
use lexi_ledger_backend.Transactions.{is_of_user, category_eq}
use lexi_ledger_backend.Api.Isolation.Tables.{
  KeepsOthers, same_rows, Keeps-throw_if, with_upload_statements, with_corrected, queued,
}

module _ (env : Env) (user_id : ℕ) (before : World) where
  store_corrected_row :
      (id : ℕ) (new : TransactionCategory) (c : TransactionCorrection) (o : Option Transaction)
      (w : World)
      → c.user_id ≡ user_id
      → SameForOthers user_id before w
      → let p = is_of_user id user_id in
        SameForOthers user_id before
          (Transactions.store_corrected env c
            (Option.map
              (λ t. (
                record t { category = new },
                map (patch p (λ r. record r { category = new })) w.transactions,
              ))
              o)
            w).1
  store_corrected_row id new c none w k h = h
  store_corrected_row id new c (some t) w k h =
      let rows =
        map (patch (is_of_user id user_id) (λ r. record r { category = new })) w.transactions in
      with_corrected env user_id before w rows (env.db.create_many (c ∷ []) w.corrections)
        (but-patch (λ r. r.user_id) user_id (is_of_user id user_id)
          (λ r. record r { category = new }) w.transactions (λ r e. (ground arith, ground arith)))
        (ap (but (λ r. r.user_id) user_id) (env.db.create_many_law (c ∷ []) w.corrections)
          ∙ but-append (λ r. r.user_id) user_id w.corrections c k)
        h

  Keeps-apply :
      (id : ℕ) (previous new : TransactionCategory)
      → KeepsOthers env user_id before (Transactions.apply_correction env user_id id previous new)
  unfolding Transactions.apply_correction
  Keeps-apply id previous new = record {
    at = λ w h.
        let w' = record w { ids = w.ids + 1; reads = w.reads + 1 } in
        rw
          (env.db.update_law (is_of_user id user_id) (λ r. record r { category = new })
            w.transactions)
          (store_corrected_row id new _ (find? (is_of_user id user_id) w.transactions) w' refl
            (same_rows env user_id before w (w.reads + 1) w.draws (w.ids + 1) w.objects h));
  }

  Keeps-correct_found :
      (id : ℕ) (category : TransactionCategory) (o : Option Transaction)
      → KeepsOthers env user_id before (Transactions.correct_found env user_id id category o)
  Keeps-correct_found id category none = Keeps-throw _
  Keeps-correct_found id category (some t) =
      Keeps-if (category_eq t.category category) _ _ (Keeps-pure t)
        (Keeps-apply id t.category category)

  pub Keeps-correct :
      (id : ℕ) (category : TransactionCategory)
      → KeepsOthers env user_id before (Transactions.correct env user_id id category)
  unfolding Transactions.correct Transactions.find_by_id_for_user
  Keeps-correct id category =
      Keeps-bind (Transactions.find_by_id_for_user env id user_id) _ (Keeps-gets _)
        (Keeps-correct_found id category)

  -- A new statement of the user.
  store_created_statement :
      (s : UploadStatement) (b : Bool) (w : World)
      → s.user_id ≡ user_id
      → SameForOthers user_id before w
      → SameForOthers user_id before
          (Statements.store_created env s
            (if b then none else some (w.upload_statements ++ s ∷ []))
            w).1
  store_created_statement s true w k h = h
  store_created_statement s false w k h =
      with_upload_statements env user_id before w (w.upload_statements ++ s ∷ [])
        (but-append (λ r. r.user_id) user_id w.upload_statements s k) h

  Keeps-create :
      (input : Statements.CreateUploadStatementInput)
      → input.user_id ≡ user_id
      → KeepsOthers env user_id before (Statements.create env input)
  unfolding Statements.create
  Keeps-create input k = record {
    at = λ w h.
        let w' = record w { ids = w.ids + 1; reads = w.reads + 1 } in
        let s = Statements.new_row (env.uuid w.ids) (env.clock w.reads) input in
        rw (env.db.create_law Statements.clash s w.upload_statements) (
          store_created_statement s (any (Statements.clash s) w.upload_statements) w' k
            (same_rows env user_id before w (w.reads + 1) w.draws (w.ids + 1) w.objects h));
  }

  Keeps-enqueue : (id : ℕ) → KeepsOthers env user_id before (Statements.enqueue env id)
  Keeps-enqueue id = record { at = λ w h. queued env user_id before w _ h }

  Keeps-storage :
      (buffer extension : String)
      → KeepsOthers env user_id before (Statements.storage_upload env buffer extension)
  unfolding Statements.storage_upload
  Keeps-storage buffer extension = record {
    at = λ w h. same_rows env user_id before w w.reads (w.draws + 1) w.ids _ h;
  }

  Keeps-upload_new :
      (file : File) (content_hash : String)
      → KeepsOthers env user_id before (Statements.upload_new env user_id file content_hash)
  unfolding Statements.upload_new
  Keeps-upload_new file content_hash =
      Keeps-bind (Statements.storage_upload env _ _) _ (Keeps-storage _ _) λ key.
        Keeps-bind (Statements.create env _) _ (Keeps-create _ refl)
          λ s. Keeps-bind (Statements.enqueue env s.id) _ (Keeps-enqueue s.id) (λ _. Keeps-pure s)

  Keeps-upload_found :
      (file : File) (content_hash : String) (o : Option UploadStatement)
      → KeepsOthers env user_id before (Statements.upload_found env user_id file content_hash o)
  Keeps-upload_found file content_hash none = Keeps-upload_new file content_hash
  Keeps-upload_found file content_hash (some s) = Keeps-pure s

  pub Keeps-upload :
      (file : File) → KeepsOthers env user_id before (Statements.upload env user_id file)
  unfolding Statements.upload Statements.find_by_user_and_hash
  Keeps-upload file = Keeps-bind (throw_if _ _) _ (Keeps-throw_if env user_id before _ _) λ _.
      Keeps-bind (Statements.find_by_user_and_hash env user_id (env.sha256 file.buffer)) _
        (Keeps-gets _) (Keeps-upload_found file (env.sha256 file.buffer))
