-- ===== src/Tests/Uploaded.antt =====
-- Examples for the upload of a statement.
use lexi_ledger_backend.Base.{◌≡◌, refl}
use lexi_ledger_backend.Platform.{ok}
use lexi_ledger_backend.Platform.Memory.{memory, empty}
use lexi_ledger_backend.Statements.{File, upload}
use lexi_ledger_backend.Statements.Uploads.{new_statement, after_upload, upload_again, upload_first}

abbrev august : File
august = record {
  mimetype = "application/pdf";
  buffer = "pages";
  original_name = "august.pdf";
  size = 5;
}

upload_first_example :
    upload memory 7 august empty
    ≡ (ok (new_statement memory 7 august empty), after_upload memory 7 august empty)
upload_first_example = upload_first memory 7 august empty refl refl refl

august_uploaded :
    upload memory 7 august empty
    ≡ (ok (new_statement memory 7 august empty), after_upload memory 7 august empty)
august_uploaded = upload_first memory 7 august empty refl refl refl

-- The same pages under another name.
abbrev renamed : File
renamed = record august { original_name = "statement-08.pdf" }

upload_again_example :
    upload memory 7 renamed (after_upload memory 7 august empty)
    ≡ (ok (new_statement memory 7 august empty), after_upload memory 7 august empty)
upload_again_example = upload_again memory 7 august renamed empty refl refl refl august_uploaded
