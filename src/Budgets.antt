-- ===== src/Budgets.antt =====
-- src/module/budget: monthly limits by category, and what was spent of them in a month.
pub mod Spending
pub mod Limits
pub mod MonthText
pub mod Today
use Prim.Native.Char.{code}
use Prim.Native.String
use lexi_ledger_backend.Base.{
  ℕ, ◌+◌, ◌-◌, ◌*◌, String, Bool, true, false, Option, none, some, List, [], ◌∷◌, map, ◌==◌, ◌&&◌,
  ◌||◌, not, if◌then◌else◌, leb, ltb, find?, str_eq,
}
use lexi_ledger_backend.Base.Text
use lexi_ledger_backend.Base.Text.{to_string}
use lexi_ledger_backend.Base.Int.{ℤ, pos, ◌-ℤ◌}
use lexi_ledger_backend.Schema.{Budget, TransactionCategory}
use lexi_ledger_backend.Platform.{
  World, Action, pure, gets, throw, modify, ◌>>=◌, ◌>>◌, not_found, error, prisma, p2025, Env, now,
  new_id, refuse,
}
use lexi_ledger_backend.Calendar.{utc_month_start_before, utc_month_last, utc_full_year, utc_month}
use lexi_ledger_backend.Transactions
use lexi_ledger_backend.Transactions.{DateRange, Overview, category_total_of, category_eq}

-- A budget with what was spent of it.
pub record BudgetReport : Type 0 where
  pub budget : Budget
  pub spent : ℤ
  pub remaining : ℤ
  pub percent_used : ℤ

abbrev pub budget_not_found : String
budget_not_found = "Budget not found"

-- The code points of a text.
abbrev pub codes : String → List ℕ
codes String.[] = []
codes (String.◌∷◌ c s) = code c ∷ codes s

abbrev pub is_digit : ℕ → Bool
is_digit c = leb b'0' c && leb c b'9'

-- `^\d{4}-(0[1-9]|1[0-2])$`, the check of `FindBudgetsDto`.
abbrev pub is_month_code : ℕ → ℕ → Bool
is_month_code a b =
    (a == b'0' && leb b'1' b && leb b b'9') || (a == b'1' && leb b'0' b && leb b b'2')

abbrev pub matches_month_codes : List ℕ → Bool
matches_month_codes (a ∷ b ∷ c ∷ d ∷ dash ∷ e ∷ f ∷ []) =
    is_digit a && is_digit b && is_digit c && is_digit d && dash == b'-' && is_month_code e f
matches_month_codes _ = false

unfoldable pub matches_month : String → Bool
matches_month month = matches_month_codes (codes month)

abbrev pub all_digits : List ℕ → Bool
all_digits [] = true
all_digits (c ∷ cs) = is_digit c && all_digits cs

-- `Number` of a text of digits.
abbrev pub number_of : ℕ → List ℕ → ℕ
number_of acc [] = acc
number_of acc (c ∷ cs) = number_of (acc * 10 + (c - b'0')) cs

-- `split('-')`, with the part that is being read.
abbrev pub split_dash : List ℕ → List ℕ × List (List ℕ)
split_dash [] = ([], [])
split_dash (c ∷ cs) =
    let (part, parts) = split_dash cs in if c == b'-' then ([], part ∷ parts) else (c ∷ part, parts)

-- `Number` of a part, `none` for NaN: an empty part is 0. The other spellings of numbers that
-- `Number` reads (`1e3`, spaces) pass no check and are written by no code, and are not told from NaN.
abbrev pub part_number : List ℕ → Option ℕ
part_number part = if all_digits part then some (number_of 0 part) else none

abbrev pub both : Option ℕ → Option ℕ → Option (ℕ × ℕ)
both (some year) (some m) = some (year, m)
both none _ = none
both (some _) none = none

-- `month.split('-').map(Number)` by its first two members; a member that is missing is no number.
abbrev pub year_and_month_parts : List ℕ × List (List ℕ) → Option (ℕ × ℕ)
year_and_month_parts (year, []) = none
year_and_month_parts (year, m ∷ _) = both (part_number year) (part_number m)

unfoldable pub year_and_month : String → Option (ℕ × ℕ)
year_and_month month = year_and_month_parts (split_dash (codes month))

-- The range of `getMonthRange`, on the year and the month.
unfoldable pub month_range : ℕ × ℕ → DateRange
month_range (year, m) = record {
  start = some (utc_month_start_before year m);
  end = some (utc_month_last year m);
}

-- `padStart(2, '0')`
abbrev pub pad_two : String → String
pad_two s = if ltb (Text.length s) 2 then String.◌++◌ "0" s else s

-- The text that `getCurrentMonthRange` writes.
unfoldable pub month_text : (full_year utc_month : ℕ) → String
month_text full_year utc_month =
    String.◌++◌ (to_string full_year) (String.◌++◌ "-" (pad_two (to_string (utc_month + 1))))

-- `userId_category: { userId, category }`
abbrev pub is_budget_of : ℕ → TransactionCategory → Budget → Bool
is_budget_of user_id category b = b.user_id == user_id && category_eq b.category category

module _ (env : Env) where
  -- The repository.
  unfoldable pub find_all_for_user : ℕ → Action (List Budget)
  find_all_for_user user_id = gets (λ w. env.db.find_many (λ b. b.user_id == user_id) w.budgets)

  unfoldable pub find_one : ℕ → TransactionCategory → Action (Option Budget)
  find_one user_id category =
      gets (λ w. env.db.find_first (is_budget_of user_id category) w.budgets)

  abbrev pub with_limit : ℕ → Budget → Budget
  with_limit monthly_limit b = record b { monthly_limit = monthly_limit }

  -- `upsert`: the update if the row is there, the new row else.
  abbrev pub store_upserted : Budget → Option (Budget × List Budget) → Action Budget
  store_upserted new none =
      modify (λ w. record w { budgets = env.db.create_many (new ∷ []) w.budgets }) >> pure new
  store_upserted new (some (b, rows)) = modify (λ w. record w { budgets = rows }) >> pure b

  abbrev pub upsert_accepted : ℕ → TransactionCategory → ℕ → Action Budget
  upsert_accepted user_id category monthly_limit = do
    id ← new_id env
    rows ← gets (λ w. w.budgets)
    store_upserted
        (record { id = id; user_id = user_id; category = category; monthly_limit = monthly_limit })
        (env.db.update (is_budget_of user_id category) (with_limit monthly_limit) rows)

  unfoldable pub upsert : ℕ → TransactionCategory → ℕ → Action Budget
  upsert user_id category monthly_limit = do
    refuse (env.db.refusal [] (pos monthly_limit ∷ []))
    upsert_accepted user_id category monthly_limit

  abbrev pub store_deleted : Option (Budget × List Budget) → Action Budget
  store_deleted none = throw (prisma p2025)
  store_deleted (some (b, rows)) = modify (λ w. record w { budgets = rows }) >> pure b

  unfoldable pub delete : ℕ → TransactionCategory → Action Budget
  delete user_id category = do
    rows ← gets (λ w. w.budgets)
    store_deleted (env.db.delete (is_budget_of user_id category) rows)

  -- The service.
  -- `toISOString` of a Date from NaN throws a RangeError. (It does so too for a year of six digits,
  -- which is neither written nor let through by the check.)
  abbrev pub range_of_parts : Option (ℕ × ℕ) → Action DateRange
  range_of_parts none = throw (error "Invalid time value")
  range_of_parts (some year_and_m) = pure (month_range year_and_m)

  unfoldable pub get_month_range : String → Action DateRange
  get_month_range month = range_of_parts (year_and_month month)

  unfoldable pub get_current_month_range : Action DateRange
  get_current_month_range = do
    t ← now env
    get_month_range (month_text (utc_full_year t) (utc_month t))

  -- `month ? this.getMonthRange(month) : this.getCurrentMonthRange()`
  unfoldable pub chosen_range : Option String → Action DateRange
  chosen_range none = get_current_month_range
  chosen_range (some month) =
      if str_eq month "" then get_current_month_range else get_month_range month

  -- `Math.round((spent / monthlyLimit) * 100)`
  abbrev pub percent : ℤ → ℕ → ℤ
  percent spent limit =
      env.round
        (env.times (env.divide (env.of_int spent) (env.of_int (pos limit))) (env.of_int (pos 100)))

  abbrev pub report : Overview → Budget → BudgetReport
  report overview budget =
      let spent = category_total_of overview budget.category in
      record {
        budget = budget;
        spent = spent;
        remaining = pos budget.monthly_limit -ℤ spent;
        percent_used = percent spent budget.monthly_limit;
      }

  unfoldable pub find_all : ℕ → Option String → Action (List BudgetReport)
  find_all user_id month = do
    range ← chosen_range month
    budgets ← find_all_for_user user_id
    overview ← Transactions.get_overview env user_id range
    pure (map (report overview) budgets)

  unfoldable pub set : ℕ → TransactionCategory → ℕ → Action Budget
  set user_id category monthly_limit = upsert user_id category monthly_limit

  abbrev pub remove_found : ℕ → TransactionCategory → Option Budget → Action Budget
  remove_found user_id category none = throw (not_found budget_not_found)
  remove_found user_id category (some _) = delete user_id category

  unfoldable pub remove : ℕ → TransactionCategory → Action Budget
  remove user_id category = do
    budget ← find_one user_id category
    remove_found user_id category budget
