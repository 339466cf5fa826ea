-- ===== src/Api/Routes.antt =====
-- The routes of the controllers under src/module with the arguments that a request brings, and the
-- checks of the dto classes on them.
use lexi_ledger_backend.Base.{
  ℕ, String, Bool, true, false, Option, none, some, List, [], ◌∷◌, ◌++◌, ◌&&◌, leb, str_eq,
  if◌then◌else◌,
}
use lexi_ledger_backend.Base.Text.{length}
use lexi_ledger_backend.Schema.{TransactionCategory}
use lexi_ledger_backend.Platform.{Env, Action, pure, refuse, ◌>>◌}
use lexi_ledger_backend.Transactions.{DateRange, Pagination}
use lexi_ledger_backend.Budgets.{matches_month}
use lexi_ledger_backend.Statements.{File, max_file_size_bytes}
use lexi_ledger_backend.AuthController.{Request}
use lexi_ledger_backend.Api.Envelope.{Method, get, post, put, patch, delete}

-- The routes that anyone may call: those of auth.controller.ts but one.
pub data PublicRoute : Type 0 where
  register : (name email password : String) → PublicRoute
  login : Request → (email password : String) → PublicRoute
  refresh : Request → PublicRoute
  logout : Request → PublicRoute
  forgot_password : (email : String) → PublicRoute
  reset_password : (token new_password : String) → PublicRoute
  verify_email : (token : String) → PublicRoute
  resend_verification : (email : String) → PublicRoute

-- The routes under `JwtAuthGuard`. A date of a range is a text that is given or not.
pub data UserRoute : Type 0 where
  logout_all : UserRoute
  get_me : UserRoute
  update_name : (name : String) → UserRoute
  get_overview : (from to : Option String) → UserRoute
  list_transactions : Pagination → (from to : Option String) → UserRoute
  correct_transaction : (id : ℕ) → TransactionCategory → UserRoute
  get_corrections : (id : ℕ) → UserRoute
  find_budgets : (month : Option String) → UserRoute
  set_budget : TransactionCategory → (monthly_limit : ℕ) → UserRoute
  remove_budget : TransactionCategory → UserRoute
  upload : File → UserRoute
  list_statements : Pagination → UserRoute
  get_statement : (id : ℕ) → UserRoute
  get_statement_stats : (id : ℕ) → UserRoute
  get_statement_transactions : (id : ℕ) → Pagination → UserRoute

-- `@Get`, `@Post`, `@Put`, `@Patch`, `@Delete`
abbrev pub method_of : UserRoute → Method
method_of logout_all = post
method_of (update_name name) = patch
method_of (correct_transaction id category) = patch
method_of (set_budget category monthly_limit) = put
method_of (remove_budget category) = delete
method_of (upload file) = post
method_of _ = get

-- The listings, which tell the page.
abbrev pub is_listing : UserRoute → Bool
is_listing (list_transactions pagination from to) = true
is_listing (list_statements pagination) = true
is_listing (get_statement_transactions id pagination) = true
is_listing _ = false

module _ (env : Env) where
  -- `@MinLength(8)`
  abbrev pub is_password : String → Bool
  is_password password = leb 8 (length password)

  -- The checks of the dto classes beyond the types of their members.
  abbrev pub register_dto : (email password : String) → Bool
  register_dto email password = env.is_email email && is_password password

  abbrev pub login_dto : (email : String) → Bool
  login_dto email = env.is_email email

  abbrev pub forgot_password_dto : (email : String) → Bool
  forgot_password_dto email = env.is_email email

  abbrev pub reset_password_dto : (new_password : String) → Bool
  reset_password_dto new_password = is_password new_password

  abbrev pub resend_verification_dto : (email : String) → Bool
  resend_verification_dto email = env.is_email email

  -- Both are integers of at least one.
  abbrev pub pagination_dto : Pagination → Bool
  pagination_dto p = leb 1 p.page && leb 1 p.limit

  -- `@IsOptional() @IsISO8601()`
  abbrev pub is_date : Option String → Bool
  is_date none = true
  is_date (some text) = env.is_iso8601 text

  abbrev pub overview_dto : (from to : Option String) → Bool
  overview_dto from to = is_date from && is_date to

  abbrev pub find_transactions_dto : Pagination → (from to : Option String) → Bool
  find_transactions_dto pagination from to = pagination_dto pagination && is_date from && is_date to

  abbrev pub find_budgets_dto : (month : Option String) → Bool
  find_budgets_dto none = true
  find_budgets_dto (some month) = matches_month month

  abbrev pub set_budget_dto : (monthly_limit : ℕ) → Bool
  set_budget_dto monthly_limit = leb 1 monthly_limit

  -- `ParseFilePipe` with its one validator.
  abbrev pub is_file : File → Bool
  is_file file = env.within_size file.size max_file_size_bytes

  -- The global `ValidationPipe`: the check of the dto that the route has.
  abbrev pub is_valid_public : PublicRoute → Bool
  is_valid_public (register name email password) = register_dto email password
  is_valid_public (login req email password) = login_dto email
  is_valid_public (forgot_password email) = forgot_password_dto email
  is_valid_public (reset_password token new_password) = reset_password_dto new_password
  is_valid_public (resend_verification email) = resend_verification_dto email
  is_valid_public _ = true

  abbrev pub is_valid : UserRoute → Bool
  is_valid (get_overview from to) = overview_dto from to
  is_valid (list_transactions pagination from to) = find_transactions_dto pagination from to
  is_valid (find_budgets month) = find_budgets_dto month
  is_valid (set_budget category monthly_limit) = set_budget_dto monthly_limit
  is_valid (upload file) = is_file file
  is_valid (list_statements pagination) = pagination_dto pagination
  is_valid (get_statement_transactions id pagination) = pagination_dto pagination
  is_valid _ = true

  -- `new Date(text)` of an end that is given and not empty.
  abbrev pub ends_given : Option String → List (Option ℕ)
  ends_given none = []
  ends_given (some text) = if str_eq text "" then [] else env.parse_date text ∷ []

  abbrev pub time_of : List (Option ℕ) → Option ℕ
  time_of [] = none
  time_of (time ∷ _) = time

  -- `dateRangeWhere` on the texts of a request; the query that it is for is refused if an end is an
  -- Invalid Date.
  unfoldable pub range_of : (from to : Option String) → Action DateRange
  range_of from to =
      refuse (env.db.refusal (ends_given from ++ ends_given to) [])
      >> pure (record { start = time_of (ends_given from); end = time_of (ends_given to) })
