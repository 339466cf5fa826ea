-- ===== src/OneTimeTokens.antt =====
-- What src/module/password-reset-tokens and src/module/email-verification-token share in form: the
-- rows of their tables and the six-digit codes.
pub mod Rows
use lexi_ledger_backend.Base.{
  ℕ, String, Bool, true, false, Option, none, some, ◌==◌, not, ◌&&◌, if◌then◌else◌, is_some, str_eq,
  ◌≡◌, arith, Bool-cases, inl, inr,
}
use lexi_ledger_backend.Base.Text.{to_string}
use lexi_ledger_backend.Schema.{OneTimeToken}
use lexi_ledger_backend.Platform.{
  Action, World, Result, ok, err, pure, ◌>>=◌, Exception, prisma, p2002, Env, draw_int,
}
use lexi_ledger_backend.Platform.Keeps.{Keeps}

-- `data: { usedAt: new Date() }`
abbrev pub used : ℕ → OneTimeToken → OneTimeToken
used t r = record r { used_at = some t }

-- `where: { userId, usedAt: null }`
abbrev pub active_of : ℕ → OneTimeToken → Bool
active_of user_id r = r.user_id == user_id && not (is_some r.used_at)

-- The unique columns are `id` and `tokenHash`.
abbrev pub clash : OneTimeToken → OneTimeToken → Bool
clash a b = if a.id == b.id then true else str_eq b.token_hash a.token_hash

-- The row that `create` writes: `usedAt` is null by default.
abbrev pub new_row : ℕ → ℕ → String → ℕ → OneTimeToken
new_row id user_id token_hash expires_at = record {
  id = id;
  user_id = user_id;
  token_hash = token_hash;
  used_at = none;
  expires_at = expires_at;
}

-- What `issue` returns.
pub record Issued : Type 0 where
  pub raw_token : String
  pub expires_at : ℕ

-- `error.code === 'P2002'`
abbrev pub is_unique_constraint_error : Exception → Bool
is_unique_constraint_error (prisma p2002) = true
is_unique_constraint_error _ = false

module _ (env : Env) where
  -- `crypto.randomInt(100000, 1000000).toString()`
  abbrev pub generate_six_digit_token : Action String
  generate_six_digit_token = do code ← draw_int env 100000 1000000; pure (to_string code)

-- The `try` and the `catch` in the loop of `issue`: the code if its row is written, the next
-- attempt after a unique constraint error, and any other error as it is.
unfoldable pub try_code : Issued → Action Issued → Action (Unit {0}) → Action Issued
try_code issued retry attempt w =
    let (r, w') = attempt w in
    elim r [
      | ok _ ↦ (ok issued, w')
      | err e ↦ elim (is_unique_constraint_error e) [ true ↦ retry w' | false ↦ (err e, w') ]
    ]

module _ (issued : Issued) (retry : Action Issued) (attempt : Action (Unit {0}))
    (w w' : World) where
  pub try_code_ok : attempt w ≡ (ok tt, w') → try_code issued retry attempt w ≡ (ok issued, w')
  unfolding try_code
  try_code_ok h = ground arith

  pub try_code_clash :
      attempt w ≡ (err (prisma p2002), w') → try_code issued retry attempt w ≡ retry w'
  unfolding try_code
  try_code_clash h = ground arith

module _ {P : World → Type 0} (issued : Issued) (retry : Action Issued) where
  -- What is kept by the next attempts is kept by the `catch`.
  caught :
      (e : Exception) (b : Bool) (w : World)
      → Keeps P retry
      → P w
      → P (elim b as (λ _. Result Issued × World) [ true ↦ retry w | false ↦ (err e, w) ]).1
  caught e true w h p = h.at w p
  caught e false w h p = p

  tried :
      (r : Result (Unit {0})) (w : World)
      → Keeps P retry
      → P w
      → P
          (elim r as (λ _. Result Issued × World) [
            | ok _ ↦ (ok issued, w)
            | err e ↦ elim (is_unique_constraint_error e) as (λ _. Result Issued × World) [
              | true ↦ retry w
              | false ↦ (err e, w)
            ]
          ]).1
  tried (ok _) w h p = p
  tried (err e) w h p = caught e (is_unique_constraint_error e) w h p

  pub Keeps-try_code :
      (attempt : Action (Unit {0}))
      → Keeps P retry
      → Keeps P attempt
      → Keeps P (try_code issued retry attempt)
  unfolding try_code
  Keeps-try_code attempt h k = record { at = λ w p. tried (attempt w).0 (attempt w).1 h (k.at w p) }
