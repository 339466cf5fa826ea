-- ===== src/Platform/Tokens.antt =====
-- Access tokens for the services in memory: a text that spells the claims, with a letter for the
-- role and the id in unary.
use Prim.Native.Char.{code}
use lexi_ledger_backend.Base.{
  ℕ, zero, suc, String, ◌≡◌, refl, ap, Option, none, some, ◌==◌, if◌then◌else◌,
}
use lexi_ledger_backend.Schema.{Role, user, admin}
use lexi_ledger_backend.Platform.Services.{JwtPayload}

abbrev unary : ℕ → String
unary zero = ""
unary (suc n) = String.◌∷◌ "a" (unary n)

abbrev ones : String → ℕ
ones String.[] = 0
ones (String.◌∷◌ c s) = suc (ones s)

ones-unary : (n : ℕ) → ones (unary n) ≡ n
ones-unary zero = refl
ones-unary (suc n) = ap suc (ones-unary n)

abbrev signed : Role → ℕ → String
signed user sub = String.◌∷◌ "u" (unary sub)
signed admin sub = String.◌∷◌ "a" (unary sub)

abbrev pub token_of : JwtPayload → String
token_of payload = signed payload.role payload.sub

abbrev pub payload_of : String → Option JwtPayload
payload_of String.[] = none
payload_of (String.◌∷◌ c s) =
    if code c == b'a'
    then some (record { sub = ones s; role = admin })
    else if code c == b'u'
    then some (record { sub = ones s; role = user })
    else none

payload_of-signed :
    (role : Role) (sub : ℕ)
    → payload_of (signed role sub) ≡ some (record { sub = sub; role = role })
payload_of-signed user sub = ap (λ n. some (record { sub = n; role = Role.user })) (ones-unary sub)
payload_of-signed admin sub =
    ap (λ n. some (record { sub = n; role = Role.admin })) (ones-unary sub)

pub payload_of-token_of : (payload : JwtPayload) → payload_of (token_of payload) ≡ some payload
payload_of-token_of payload = payload_of-signed payload.role payload.sub
