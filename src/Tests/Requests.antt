-- ===== src/Tests/Requests.antt =====
-- Examples for the HTTP interface: requests of Ada, and of no one.
use lexi_ledger_backend.Base.{none, false, ◌≡◌, refl, some, arith}
use lexi_ledger_backend.Schema.{Role, RefreshToken}
use lexi_ledger_backend.Platform.{World, ok}
use lexi_ledger_backend.Platform.Memory.{memory}
use lexi_ledger_backend.Api
use lexi_ledger_backend.Api.Guard.{jwt_auth_guard}
use lexi_ledger_backend.Api.Routes.{UserRoute}
use lexi_ledger_backend.Api.Refusals.{IsRefused, unauthenticated-IsRefused}
use lexi_ledger_backend.Api.Replies.{IsReply, respond_user-IsReply}
use lexi_ledger_backend.Api.Isolation.{SameForOthers}
use lexi_ledger_backend.Api.Isolation.Handlers.{others_untouched}
use lexi_ledger_backend.Api.Sessions.{login_token_admits, refresh_continues}
use lexi_ledger_backend.Api.Privacy.Handlers.{IsPrivate, answers-IsPrivate}
use lexi_ledger_backend.AuthService.{refresh, Refreshed}
use lexi_ledger_backend.RefreshTokens.Rotation
use lexi_ledger_backend.Tests.Sessions.{signed_in, logs_in_all, session, session-IsUsable}

-- A request with a token that was never signed.
unauthenticated-IsRefused_example : IsRefused memory "production" 401 "Unauthorized" signed_in (
    Api.respond_user memory "production" "/api/v1/users/me" (some "bad") UserRoute.get_me signed_in)
unauthenticated-IsRefused_example =
    unauthenticated-IsRefused memory "production" "/api/v1/users/me" (some "bad") UserRoute.get_me
      signed_in refl

abbrev ada_renames : UserRoute
ada_renames = UserRoute.update_name "Ada L."

respond_user-IsReply_example :
    IsReply 200 false
      (Api.respond_user memory "production" "/api/v1/users/me"
        (some "uaaaaaaa")
        ada_renames
        signed_in).0
respond_user-IsReply_example =
    respond_user-IsReply memory "production" "/api/v1/users/me" (some "uaaaaaaa") ada_renames
      signed_in

others_untouched_example :
    SameForOthers 7 signed_in
      (Api.respond_user memory "production" "/api/v1/users/me"
        (some "uaaaaaaa")
        ada_renames
        signed_in).1
others_untouched_example =
    others_untouched memory "production" "/api/v1/users/me" "uaaaaaaa" ada_renames signed_in refl

-- Ada's access token, two readings of the clock later.
abbrev next_request : World
next_request = record signed_in { reads = 2 }

login_token_admits_example :
    jwt_auth_guard memory (some "uaaaaaaa") next_request
    ≡ (ok (record { user_id = 7; role = Role.user }), record next_request { reads = 3 })
login_token_admits_example =
    login_token_admits memory "ada@a.b" "pw" signed_in next_request logs_in_all (omega arith)

abbrev much_later : World
much_later = record signed_in { reads = 9 }

refresh_continues_example :
    let (result, w') = refresh memory "raw" signed_in in
    (reply : Refreshed) × (next : RefreshToken) × (result ≡ ok reply)
    × (Rotation.stored memory reply.refresh_token w' ≡ some next)
    × (next.user_id ≡ 7)
    × (next.revoked_at ≡ none)
    × (jwt_auth_guard memory (some reply.access_token) much_later
        ≡ (ok (record { user_id = 7; role = Role.user }), record much_later { reads = 10 }))
refresh_continues_example =
    refresh_continues memory "raw" session signed_in much_later session-IsUsable refl (omega arith)

answers-IsPrivate_example :
    IsPrivate 7
      (Api.respond_user memory "production" "/api/v1/users/me"
        (some "uaaaaaaa")
        ada_renames
        signed_in).0
answers-IsPrivate_example =
    answers-IsPrivate memory "production" "/api/v1/users/me" "uaaaaaaa" ada_renames signed_in refl
