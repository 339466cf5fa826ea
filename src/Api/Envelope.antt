-- ===== src/Api/Envelope.antt =====
-- src/common/interceptors/transform.interceptor.ts and src/common/filters/http-exception.filter.ts:
-- the envelope of a reply, and what the client is told of an exception.
use Prim.Native.String
use lexi_ledger_backend.Base.{
  ℕ, String, Bool, true, false, Option, none, some, List, [], ◌∷◌, get_or_else,
}
use lexi_ledger_backend.Schema.{Transaction, TransactionCorrection, Budget, UploadStatement}
use lexi_ledger_backend.Platform.{
  Action, pure, ◌>>=◌, Exception, unauthorized, not_found, conflict, bad_request, error,
  unrecoverable, prisma, Env, now,
}
use lexi_ledger_backend.Users.{SafeUser}
use lexi_ledger_backend.Transactions.{Page, Stats, Overview}
use lexi_ledger_backend.Budgets.{BudgetReport}
use lexi_ledger_backend.AuthService.{Registered}
use lexi_ledger_backend.AuthController.{LoginBody, RefreshBody}

-- `meta` of a page.
pub record Meta : Type 0 where
  pub page : ℕ
  pub limit : ℕ
  pub total : ℕ
  pub total_pages : ℕ

-- The values that the handlers return: `{ message }`, objects, null, arrays, and the pages, which
-- alone have the members `data` and `meta`.
pub data Value : Type 0 where
  null : Value
  message : String → Value
  registered : Registered → Value
  logged_in : LoginBody → Value
  refreshed : RefreshBody → Value
  user : SafeUser → Value
  overview : Overview → Value
  transaction : Transaction → Value
  transactions : List Transaction → Value
  corrections : List TransactionCorrection → Value
  budget : Budget → Value
  budgets : List BudgetReport → Value
  statement : UploadStatement → Value
  statements : List UploadStatement → Value
  stats : Stats → Value
  paginated : (rows : Value) (meta : Meta) → Value

-- `{ data, meta }`
abbrev pub paginate : {Row : Type 0} → (List Row → Value) → Page Row → Value
paginate rows p =
    paginated (rows p.rows)
      (record { page = p.page; limit = p.limit; total = p.total; total_pages = p.total_pages })

pub data Method : Type 0 where
  get post put patch delete : Method

-- `ApiResponse`
pub record ApiResponse : Type 0 where
  pub success : Bool
  pub status_code : ℕ
  pub body : Value
  pub meta : Option Meta

-- `method === 'POST' ? HttpStatus.CREATED : HttpStatus.OK`
abbrev pub default_code : Method → ℕ
default_code post = 201
default_code _ = 200

-- `isPaginatedResult`
abbrev pub is_paginated_result : Value → Bool
is_paginated_result (paginated rows meta) = true
is_paginated_result _ = false

-- The two objects of `intercept`; `explicit_code` is the metadata of the
-- handler.
unfoldable pub intercept : Option ℕ → Method → Value → ApiResponse
intercept explicit_code method (paginated rows meta) = record {
  success = true;
  status_code = get_or_else explicit_code (default_code method);
  body = rows;
  meta = some meta;
}
intercept explicit_code method result = record {
  success = true;
  status_code = get_or_else explicit_code (default_code method);
  body = result;
  meta = none;
}

-- `exception.getResponse()`: a text, or an object with a message or several.
pub data ExceptionResponse : Type 0 where
  text : String → ExceptionResponse
  one : String → ExceptionResponse
  several : List String → ExceptionResponse

-- What is thrown, as the filter reads it: an `HttpException` or anything else.
pub data Thrown : Type 0 where
  http : (status : ℕ) → ExceptionResponse → Thrown
  other : Thrown

pub record ErrorBody : Type 0 where
  pub success : Bool
  pub status_code : ℕ
  pub timestamp : ℕ
  pub path : String
  pub message : String

-- `message.join('; ')`
abbrev pub join : List String → String
join [] = ""
join (m ∷ []) = m
join (m ∷ n ∷ ms) = String.◌++◌ m (String.◌++◌ "; " (join (n ∷ ms)))

abbrev pub normalized_message : ExceptionResponse → String
normalized_message (text m) = m
normalized_message (one m) = m
normalized_message (several ms) = join ms

-- The status and the message of the reply.
abbrev pub status_of : Thrown → ℕ
status_of (http status response) = status
status_of other = 500

abbrev pub client_message : Thrown → String
client_message (http status response) = normalized_message response
client_message other = "Internal server error"

-- The classes of `@nestjs/common` are `HttpException`s, each with its status and an object with
-- the message that it was given; the other exceptions are not.
abbrev pub thrown : Exception → Thrown
thrown (unauthorized m) = http 401 (one m)
thrown (not_found m) = http 404 (one m)
thrown (conflict m) = http 409 (one m)
thrown (bad_request m) = http 400 (one m)
thrown (error m) = other
thrown (unrecoverable m) = other
thrown (prisma code) = other

module _ (env : Env) where
  -- `HttpExceptionFilter.catch`
  unfoldable pub catch_exception : Thrown → String → Action ErrorBody
  catch_exception exception path = do
    t ← now env
    pure (record {
      success = false;
      status_code = status_of exception;
      timestamp = t;
      path = path;
      message = client_message exception;
    })
