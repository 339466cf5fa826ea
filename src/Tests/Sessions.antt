-- ===== src/Tests/Sessions.antt =====
-- Examples for the refresh tokens and for the logins, on the world of one user with one session.
use lexi_ledger_backend.Base.{◌+◌, ◌≡◌, refl, true, none, some, [], ◌∷◌, is_some}
use lexi_ledger_backend.Schema.{User, RefreshToken, OneTimeToken, Role}
use lexi_ledger_backend.Platform.{World, ok, err, unauthorized}
use lexi_ledger_backend.Platform.Memory.{memory, empty}
use lexi_ledger_backend.RefreshTokens.{
  valid, invalid, reused, revoked, validate_and_rotate, revoke_by_raw_token, refresh_token_ttl_ms,
  issue, create, hash_token, find_by_token_hash, validate_found,
}
use lexi_ledger_backend.RefreshTokens.Queries.{issued_raw, issued_row}
use lexi_ledger_backend.RefreshTokens.Rotation.{
  HasNoSession, IsUsable, stored, before_issue, of_others, rotation_replaces,
  second_use_ends_sessions, revoke_by_raw_token_keeps_session,
}
use lexi_ledger_backend.RefreshTokens.Spent.{Reach, here, next, logout_step, IsSpent, spent_forever}
use lexi_ledger_backend.Users.{to_safe_user, with_password, find_by_email}
use lexi_ledger_backend.Users.Queries
use lexi_ledger_backend.Users.Queries.{stored_by_email}
use lexi_ledger_backend.OneTimeTokens.Rows.{HasNoCode}
use lexi_ledger_backend.AuthService.{
  login, login_found, login_matched, sign_in, success, invalid_credentials, reset_password,
  reset_successful,
}
use lexi_ledger_backend.AuthService.Passwords.{
  new_hash, login_rejects, login_sound, reset_password_secures,
}

-- Ada is verified, has the password "pw", the session of the raw token "raw", and the reset code
-- "111111".
abbrev pub ada : User
ada = record {
  id = 7;
  name = "Ada";
  email = "ada@a.b";
  password_hash = "$pw";
  role = Role.user;
  email_verified_at = some 5;
}

abbrev pub session : RefreshToken
session = record { id = 50; user_id = 7; token_hash = "#raw"; expires_at = 9000; revoked_at = none }

abbrev reset_code : OneTimeToken
reset_code = record {
  id = 60;
  user_id = 7;
  token_hash = "#111111";
  used_at = none;
  expires_at = 9000;
}

abbrev pub signed_in : World
signed_in = record empty {
  users = ada ∷ [];
  refresh_tokens = session ∷ [];
  password_reset_tokens = reset_code ∷ [];
}

-- The same once the session is revoked.
abbrev signed_out : World
signed_out = record signed_in { refresh_tokens = revoked 900 session ∷ [] }

pub session-IsUsable : IsUsable memory "raw" session signed_in
session-IsUsable = record { found = refl; active = refl; in_time = refl; fresh = refl }

rotation_replaces_example :
    let (result, w') = validate_and_rotate memory "raw" signed_in in
    (result
      ≡ ok (
          valid 7
            (issued_raw memory (before_issue memory session signed_in))
            (memory.clock (signed_in.reads + 2) + refresh_token_ttl_ms)))
    × (stored memory (issued_raw memory (before_issue memory session signed_in)) w'
        ≡ some (issued_row memory 7 (before_issue memory session signed_in)))
    × (stored memory "raw" w' ≡ some (revoked (memory.clock (signed_in.reads + 1)) session))
rotation_replaces_example = rotation_replaces memory "raw" session signed_in session-IsUsable

second_use_ends_sessions_example :
    let (_, w') = validate_and_rotate memory "raw" signed_in in
    let (result, w'') = validate_and_rotate memory "raw" w' in
    (result ≡ ok reused) × HasNoSession 7 w'' × (of_others memory 7 w'' ≡ of_others memory 7 w')
second_use_ends_sessions_example =
    second_use_ends_sessions memory "raw" session signed_in session-IsUsable

unknown_is_rejected : (validate_and_rotate memory "other" signed_in).0 ≡ ok invalid
unfolding validate_and_rotate hash_token find_by_token_hash validate_found
unknown_is_rejected = refl

revoke_by_raw_token_keeps_session_example :
    (revoke_by_raw_token memory "raw" signed_in ≡ (ok tt, signed_in))
    × IsUsable memory "raw" session (revoke_by_raw_token memory "raw" signed_in).1
revoke_by_raw_token_keeps_session_example =
    revoke_by_raw_token_keeps_session memory "raw" session signed_in session-IsUsable refl

-- A logout after the token is revoked.
abbrev later : World
later = (revoke_by_raw_token memory "raw" signed_out).1

logged_out_later : Reach memory signed_out later
logged_out_later = next here (logout_step "raw" refl)

session-IsSpent : IsSpent memory "raw" signed_out
session-IsSpent = (revoked 900 session, 900, refl, refl)

spent_forever_example : (validate_and_rotate memory "raw" later).0 ≡ ok reused
spent_forever_example = spent_forever memory "raw" logged_out_later session-IsSpent

login_rejects_example :
    login memory "ada@a.b" "no" signed_in ≡ (err (unauthorized invalid_credentials), signed_in)
login_rejects_example = login_rejects memory "ada@a.b" "no" signed_in refl

reset_password_secures_example :
    let (result, w') = reset_password memory "111111" "new" signed_in in
    (result ≡ ok reset_successful)
    × (Queries.stored 7 w' ≡ some (with_password memory (new_hash memory "new" signed_in) ada))
    × (memory.bcrypt_compare "new" (new_hash memory "new" signed_in) ≡ true)
    × HasNoSession 7 w'
    × HasNoCode 7 w'.password_reset_tokens
reset_password_secures_example =
    reset_password_secures memory "111111" "new" reset_code signed_in
      (record { found = refl; unused = refl; in_time = refl }) refl

logs_in :
    (login memory "ada@a.b" "pw" signed_in).0
    ≡ ok (success (to_safe_user ada) "uaaaaaaa" "r0" (1001 + refresh_token_ttl_ms))
unfolding login login_found login_matched sign_in find_by_email issue create hash_token
logs_in = refl

login_sound_example :
    (u : User) × (stored_by_email "ada@a.b" signed_in ≡ some u)
    × (memory.bcrypt_compare "pw" u.password_hash ≡ true)
    × (is_some u.email_verified_at ≡ true)
    × (to_safe_user ada ≡ to_safe_user u)
login_sound_example = login_sound memory "ada@a.b" "pw" signed_in logs_in

pub logs_in_all : login memory "ada@a.b" "pw" signed_in ≡ (
  ok (success (to_safe_user ada) "uaaaaaaa" "r0" (1001 + refresh_token_ttl_ms)),
  (login memory "ada@a.b" "pw" signed_in).1,
)
unfolding login login_found login_matched sign_in find_by_email issue create hash_token
logs_in_all = refl
