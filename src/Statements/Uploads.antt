-- ===== src/Statements/Uploads.antt =====
-- Proofs about `upload` of src/module/statements/statements.service.ts.
use Prim.Native.String
use lexi_ledger_backend.Base.{
  ℕ, ◌+◌, String, ◌≡◌, ◌≢◌, sym, subst, ◌∙◌, Bool, true, false, Option, none, some, [], ◌∷◌, ◌++◌,
  arith, ==_refl, str_eq, eq_iff, eq_refl, find?, find?-append_none, any, Option-cases, Bool-cases,
  inl, inr,
}
use lexi_ledger_backend.Schema.{UploadStatement}
use lexi_ledger_backend.Platform.{World, Result, ok, err, bad_request, prisma, p2002, Env}
use lexi_ledger_backend.Statements.{
  File, has_content, clash, new_row, job_for, upload, upload_found, upload_new, create,
  storage_upload, find_by_user_and_hash, only_pdf,
}

module _ (env : Env) where
  -- The statement of a user with the content of a file.
  abbrev pub stored : ℕ → File → World → Option UploadStatement
  stored user_id file w = find? (has_content user_id (env.sha256 file.buffer)) w.upload_statements

  abbrev pub is_pdf : File → Bool
  is_pdf file = str_eq file.mimetype "application/pdf"

  -- The key of the new object, the new row and the world with both and with the job.
  abbrev pub new_key : File → World → String
  new_key file w = String.◌++◌ (env.random_uuid w.draws) (env.extname file.original_name)

  abbrev pub new_statement : ℕ → File → World → UploadStatement
  new_statement user_id file w = new_row (env.uuid w.ids) (env.clock w.reads) (record {
    user_id = user_id;
    filename = file.original_name;
    content_hash = env.sha256 file.buffer;
    storage_path = new_key file w;
  })

  abbrev pub after_upload : ℕ → File → World → World
  after_upload user_id file w = record w {
    upload_statements = w.upload_statements ++ new_statement user_id file w ∷ [];
    objects = (new_key file w, file.buffer) ∷ w.objects;
    queue = w.queue ++ job_for (env.uuid w.ids) ∷ [];
    draws = w.draws + 1;
    ids = w.ids + 1;
    reads = w.reads + 1;
  }

  upload-stored :
      (user_id : ℕ) (file : File) (w : World)
      → is_pdf file ≡ true
      → upload env user_id file w
        ≡ upload_found env user_id file (env.sha256 file.buffer) (stored user_id file w) w
  unfolding upload find_by_user_and_hash
  upload-stored user_id file w pdf = ground (
    arith,
    env.db.find_first_law (has_content user_id (env.sha256 file.buffer)) w.upload_statements,
  )

  -- A file that is no PDF is refused, and nothing changes.
  pub upload_not_pdf :
      (user_id : ℕ) (file : File) (w : World)
      → file.mimetype ≢ "application/pdf"
      → upload env user_id file w ≡ (err (bad_request only_pdf), w)
  unfolding upload
  upload_not_pdf user_id file w h = ground (arith, eq_iff file.mimetype "application/pdf")

  upload_new_free :
      (user_id : ℕ) (file : File) (w : World)
      → any (clash (new_statement user_id file w)) w.upload_statements ≡ false
      → upload_new env user_id file (env.sha256 file.buffer) w
        ≡ (ok (new_statement user_id file w), after_upload user_id file w)
  unfolding upload_new create storage_upload
  upload_new_free user_id file w h =
      ground (arith, env.db.create_law clash (new_statement user_id file w) w.upload_statements)

  upload_new-clash :
      (user_id : ℕ) (file : File) (w : World)
      → any (clash (new_statement user_id file w)) w.upload_statements ≡ true
      → (upload_new env user_id file (env.sha256 file.buffer) w).0 ≡ err (prisma p2002)
  unfolding upload_new create storage_upload
  upload_new-clash user_id file w h =
      ground (arith, env.db.create_law clash (new_statement user_id file w) w.upload_statements)

  stored-after_upload :
      (user_id : ℕ) (file : File) (w : World)
      → stored user_id file w ≡ none
      → stored user_id file (after_upload user_id file w) ≡ some (new_statement user_id file w)
  stored-after_upload user_id file w h =
      find?-append_none (has_content user_id (env.sha256 file.buffer)) w.upload_statements
        (new_statement user_id file w ∷ []) h
      ∙ ground (arith, ==_refl user_id, eq_refl (env.sha256 file.buffer))

  -- The upload of a PDF whose content the user has not uploaded yet, where the new row has an id
  -- of its own: one pending statement, one object with the content under the statement's path,
  -- and one job for the statement.
  pub upload_first :
      (user_id : ℕ) (file : File) (w : World)
      → is_pdf file ≡ true
      → stored user_id file w ≡ none
      → any (clash (new_statement user_id file w)) w.upload_statements ≡ false
      → upload env user_id file w ≡ (ok (new_statement user_id file w), after_upload user_id file w)
  upload_first user_id file w pdf new free =
      rw (upload-stored user_id file w pdf, new) (upload_new_free user_id file w free)

  upload_existing :
      (user_id : ℕ) (file : File) (w : World) {existing : UploadStatement}
      → is_pdf file ≡ true
      → stored user_id file w ≡ some existing
      → upload env user_id file w ≡ (ok existing, w)
  upload_existing user_id file w pdf found = rw (upload-stored user_id file w pdf, found)

  -- The outcome of an upload of a file is that of the next upload of another.
  abbrev Repeats : ℕ → File → Result UploadStatement × World → Type 0
  Repeats user_id file' (r, w) = upload env user_id file' w ≡ (r, w)

  upload_same_content :
      (user_id : ℕ) (file file' : File) (w : World) {s : UploadStatement}
      → is_pdf file' ≡ true
      → file'.buffer ≡ file.buffer
      → stored user_id file w ≡ some s
      → Repeats user_id file' (ok s, w)
  upload_same_content user_id file file' w {s} pdf same found =
      upload_existing user_id file' w pdf (
        subst
          (λ content. find? (has_content user_id (env.sha256 content)) w.upload_statements ≡ some s)
          (sym same) found)

  -- Once the upload of a PDF has returned a statement, the user's upload of a PDF with the same
  -- content, whatever its name, returns the same statement and changes nothing: no second
  -- statement, object or job.
  pub upload_again :
      (user_id : ℕ) (file file' : File) (w : World) {s : UploadStatement} {w' : World}
      → is_pdf file ≡ true
      → is_pdf file' ≡ true
      → file'.buffer ≡ file.buffer
      → upload env user_id file w ≡ (ok s, w')
      → upload env user_id file' w' ≡ (ok s, w')
  upload_again user_id file file' w {s} {w'} pdf pdf' same e =
      elim (Option-cases (stored user_id file w)) [
        | inr (existing, found) ↦
            subst (Repeats user_id file') (sym (upload_existing user_id file w pdf found) ∙ e)
              (upload_same_content user_id file file' w pdf' same found)
        | inl new ↦
            elim (Bool-cases (any (clash (new_statement user_id file w)) w.upload_statements)) [
              | inr free ↦
                  subst (Repeats user_id file') (sym (upload_first user_id file w pdf new free) ∙ e)
                    (upload_same_content user_id file file' (after_upload user_id file w) pdf' same
                      (stored-after_upload user_id file w new))
              | inl taken ↦ absurd (
                  ground (
                    arith,
                    upload-stored user_id file w pdf,
                    new,
                    upload_new-clash user_id file w taken,
                    e,
                  ))
            ]
      ]
