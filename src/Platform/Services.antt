-- ===== src/Platform/Services.antt =====
-- The services outside the program: the database client, the clock, random numbers, hashes, the
-- signing of access tokens, arithmetic on doubles, the object store, PDF text, and Gemini.
use lexi_ledger_backend.Base.{
  none, some, ◌/◌, Option, ℕ, ◌+◌, String, ◌≡◌, ◌≤◌, ◌<◌, Bool, true, List,
}
use lexi_ledger_backend.Base.Int.{ℤ}
use lexi_ledger_backend.Schema.{Role, Number}
use lexi_ledger_backend.Platform.Client.{Prisma}
use lexi_ledger_backend.Platform.Monad.{Action, Result, ok, PrismaCode, pure, throw, prisma}

-- A member of the JSON that Gemini answers with.
pub data JsonField : Type 0 where
  text : String → JsonField
  number : Number → JsonField
  other : JsonField

-- An element of that JSON's array, by the members that the program reads.
pub record RawTransaction : Type 0 where
  pub date : JsonField
  pub description : JsonField
  pub amount : JsonField
  pub type : JsonField
  pub category : JsonField
  pub confidence : JsonField

-- The claims of an access token: `{ sub, role }`.
pub record JwtPayload : Type 0 where
  pub sub : ℕ
  pub role : Role

pub record Env : Type 1 where
  pub db : Prisma
  -- The k-th reading of the clock, in milliseconds.
  pub clock : ℕ → ℕ
  -- The k-th uuid.
  pub uuid : ℕ → ℕ
  -- `crypto.randomBytes(n).toString('hex')` and `crypto.randomInt(min, max)` at the k-th draw.
  pub random_hex : ℕ → ℕ → String
  pub random_int : ℕ → ℕ → ℕ → ℕ
  pub random_int_law :
      (k min max : ℕ) → min < max → (min ≤ random_int k min max) × (random_int k min max < max)
  -- `crypto.createHash('sha256').update(text).digest('hex')`
  pub sha256 : String → String
  -- bcrypt, with the salt of the k-th draw.
  pub bcrypt_hash : ℕ → String → ℕ → String
  pub bcrypt_compare : String → String → Bool
  pub bcrypt_law :
      (k : ℕ) (password : String) (rounds : ℕ)
      → bcrypt_compare password (bcrypt_hash k password rounds) ≡ true
  -- `jwtService.signAsync` at a time.
  pub sign_async : ℕ → JwtPayload → String
  -- The lifetime of an access token in seconds, and the check of passport's strategy at a time: the
  -- claims of a token that has its signature and has not expired. A token expires by the second.
  pub access_expires_in : ℕ
  pub jwt_verify : ℕ → String → Option JwtPayload
  pub jwt_law :
      (t later : ℕ) (payload : JwtPayload)
      → later / 1000 < t / 1000 + access_expires_in
      → jwt_verify later (sign_async t payload) ≡ some payload
  -- Doubles: an integer as a double, `*`, `/`, `<=`, `Math.round`, and whether the double is a
  -- number (neither NaN nor infinite).
  pub of_int : ℤ → Number
  pub times : Number → Number → Number
  pub divide : Number → Number → Number
  pub number_le : Number → Number → Bool
  pub round : Number → ℤ
  pub is_number : Number → Bool
  -- `IsISO8601` and `new Date(text)`: the time, or `none` for an Invalid Date.
  pub is_iso8601 : String → Bool
  pub parse_date : String → Option ℕ
  -- `IsEmail`, the messages of the validation of a request, and `MaxFileSizeValidator` on the size
  -- of a file.
  pub is_email : String → Bool
  pub validation_messages : List String
  pub within_size : ℕ → ℕ → Bool
  -- `path.extname`, and the k-th `randomUUID()` as a text.
  pub extname : String → String
  pub random_uuid : ℕ → String
  -- The text of a PDF, or the parser's error.
  pub pdf_text : String → Result String
  -- The k-th answer of Gemini to a prompt, parsed, or the error of the call.
  pub gemini : ℕ → String → Result (List RawTransaction)
  -- `JSON.stringify` of the errors that the validator finds in an element.
  pub validation_errors : RawTransaction → String
  -- The message of an error of Prisma.
  pub prisma_message : PrismaCode → String

-- A query throws where it is refused.
abbrev pub refuse : Option PrismaCode → Action (Unit {0})
refuse none = pure tt
refuse (some code) = throw (prisma code)

module _ (env : Env) where
  -- `Date.now()`, `new Date()`: each reading of the clock is a new one.
  abbrev pub now : Action ℕ
  now w = (ok (env.clock w.reads), record w { reads = w.reads + 1 })

  -- The default `uuid()` of a column `id`.
  abbrev pub new_id : Action ℕ
  new_id w = (ok (env.uuid w.ids), record w { ids = w.ids + 1 })

  abbrev pub random_bytes_hex : ℕ → Action String
  random_bytes_hex n w = (ok (env.random_hex w.draws n), record w { draws = w.draws + 1 })

  abbrev pub draw_int : ℕ → ℕ → Action ℕ
  draw_int min max w = (ok (env.random_int w.draws min max), record w { draws = w.draws + 1 })
