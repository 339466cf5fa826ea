-- ===== src/Api/Ranges.antt =====
-- Proofs about the dates that a request of an overview names: `dateRangeWhere` of
-- src/module/transactions/transactions.repository.ts behind src/module/dashboard.
use lexi_ledger_backend.Base.{
  ℕ, String, Bool, false, Option, none, some, [], ◌∷◌, ◌≡◌, refl, arith, str_eq, leb, ◌==◌, ◌&&◌,
}
use lexi_ledger_backend.Schema.{Transaction}
use lexi_ledger_backend.Platform.{World, Result, ok, err, Env, prisma, invalid_argument}
use lexi_ledger_backend.Transactions.{Overview, get_overview, overview_of}
use lexi_ledger_backend.Transactions.Totals.{AreTotals, get_overview-AreTotals}
use lexi_ledger_backend.AuthController.{Response, keep}
use lexi_ledger_backend.Api.Envelope.{Value}
use lexi_ledger_backend.Api.Guard.{CurrentUserPayload}
use lexi_ledger_backend.Api.Routes.{range_of}
use lexi_ledger_backend.Api.Controllers

-- A row of a user from a time to another, both included.
abbrev pub is_between : (user_id from to : ℕ) → Transaction → Bool
is_between user_id from to t = t.user_id == user_id && (leb from t.date && leb t.date to)

module _ (env : Env) where
  -- The answer for two texts, by the times that they name: the totals of the user's rows between
  -- them, or the refusal of an Invalid Date; in each case nothing is changed.
  abbrev pub IsAnswered :
      ℕ → (from to : Option ℕ) → World → Result (Response Value) × World → Type 0
  IsAnswered user_id (some from) (some to) w outcome =
      (o : Overview) × (outcome ≡ (ok (record { body = Value.overview o; cookie = keep }), w))
      × AreTotals env (is_between user_id from to) w (record {
        total_transactions = o.total_transactions;
        total_credit = o.total_credit;
        total_debit = o.total_debit;
        net = o.net;
      })
  IsAnswered user_id none to w outcome = outcome ≡ (err (prisma invalid_argument), w)
  IsAnswered user_id (some _) none w outcome = outcome ≡ (err (prisma invalid_argument), w)

  module _ (current : CurrentUserPayload) (from to : String) (w : World)
      (from_given : str_eq from "" ≡ false) (to_given : str_eq to "" ≡ false) where
    answered :
        (start end : Option ℕ)
        → env.parse_date from ≡ start
        → env.parse_date to ≡ end
        → IsAnswered current.user_id start end w
            (Controllers.get_overview env current (some from) (some to) w)
    unfolding Controllers.get_overview range_of get_overview
    answered (some a) (some b) h k =
        let (_, totals) =
          get_overview-AreTotals env current.user_id (record { start = some a; end = some b }) w in
        (
          overview_of env current.user_id (record { start = some a; end = some b }) w,
          ground (arith, h, k, env.db.refusal_law (some a ∷ some b ∷ []) []),
          totals,
        )
    answered none end h k = ground (arith, h, k, env.db.refusal_law (none ∷ end ∷ []) [])
    answered (some a) none h k = ground (arith, h, k, env.db.refusal_law (some a ∷ none ∷ []) [])

    -- An overview asked for with two texts that are not empty: if both name a date, the answer is
    -- the totals of the user's transactions from the first to the second, both included; if one
    -- is an Invalid Date, the database client refuses the query. Nothing is changed.
    pub dated_overview-IsAnswered :
        IsAnswered current.user_id
          (env.parse_date from)
          (env.parse_date to)
          w
          (Controllers.get_overview env current (some from) (some to) w)
    dated_overview-IsAnswered = answered (env.parse_date from) (env.parse_date to) refl refl
