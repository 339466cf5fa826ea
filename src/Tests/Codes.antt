-- ===== src/Tests/Codes.antt =====
-- Examples for the reset codes: the world holds the code "100000", which the first draw meets.
use lexi_ledger_backend.Base.{◌*◌, ◌+◌, ◌≡◌, refl, none, some, [], ◌∷◌}
use lexi_ledger_backend.Base.Text.{to_string}
use lexi_ledger_backend.Schema.{OneTimeToken}
use lexi_ledger_backend.Platform.{World, ok}
use lexi_ledger_backend.Platform.Memory.{memory, empty}
use lexi_ledger_backend.OneTimeTokens.{used, Issued, try_code}
use lexi_ledger_backend.OneTimeTokens.Rows.{HasNoCode}
use lexi_ledger_backend.PasswordResetTokens.{
  password_reset_token_ttl_ms, verify, verify_found, hash_token, find_by_token_hash, issue,
  issue_attempts, create,
}
use lexi_ledger_backend.PasswordResetTokens.Codes.{IsUsable, code_used_once}
use lexi_ledger_backend.PasswordResetTokens.Issue.{Attempted, issue-Attempted}

abbrev taken : OneTimeToken
taken = record { id = 60; user_id = 7; token_hash = "#100000"; used_at = none; expires_at = 9000 }

abbrev one_code : World
one_code = record empty { password_reset_tokens = taken ∷ [] }

taken-IsUsable : IsUsable memory "100000" taken one_code
taken-IsUsable = record { found = refl; unused = refl; in_time = refl }

code_used_once_example :
    let (result, w') = verify memory "100000" one_code in
    (result ≡ ok (some 7))
    × HasNoCode 7 w'.password_reset_tokens
    × ((verify memory "100000" w').0 ≡ ok none)
code_used_once_example = code_used_once memory "100000" taken one_code taken-IsUsable

abbrev used_code : World
used_code = record empty { password_reset_tokens = used 900 taken ∷ [] }

used_code_is_refused : (verify memory "100000" used_code).0 ≡ ok none
unfolding verify hash_token find_by_token_hash verify_found
used_code_is_refused = refl

issue-Attempted_example :
    Attempted memory 7
      (1000 + 15 * 60 * 1000)
      5
      (record one_code { reads = 1 })
      (issue memory 7 one_code)
issue-Attempted_example = issue-Attempted memory 7 one_code

-- The code of the first draw, and the world with its row.
abbrev first_issued : Issued
first_issued = record {
  raw_token = to_string 100000;
  expires_at = 1000 + password_reset_token_ttl_ms;
}

abbrev after_issue : World
after_issue = record empty {
  password_reset_tokens =
      record {
        id = 0;
        user_id = 7;
        token_hash = memory.sha256 (to_string 100000);
        used_at = none;
        expires_at = 1000 + password_reset_token_ttl_ms;
      }
      ∷ [];
  reads = 1;
  draws = 1;
  ids = 1;
}

issues_first : issue memory 7 empty ≡ (ok first_issued, after_issue)
unfolding issue issue_attempts try_code create hash_token
issues_first = refl
