-- ===== src/Api/Privacy/Rows.antt =====
-- Lemmas on the rows that a query answers with.
use mathlib.Core.List.{Perm, foldr}
use mathlib.Core.List.Perm
use mathlib.Core.Bool.{Bool-set}
use lexi_ledger_backend.Base.{
  ℕ, zero, suc, Bool, true, false, ◌&&◌, Option, none, some, List, [], ◌∷◌, ◌≡◌, refl, sym, ◌∙◌, ap,
  arith, filter, find?, find?-holds, take, drop, Bool-cases, inl, inr,
}
use lexi_ledger_backend.Platform.{Env}
use lexi_ledger_backend.Transactions.{page_of}
use lexi_ledger_backend.Api.Privacy.{every}

module _ {Row : Type 0} (q : Row → Bool) where
  every-filter :
      (p : Row → Bool) (rows : List Row)
      → ((r : Row) → p r ≡ true → q r ≡ true)
      → every q (filter p rows) ≡ true
  every-filter p [] h = refl
  every-filter p (r ∷ rows) h = elim (Bool-cases (p r)) [
    | inl e ↦ rw (e, h r e) (every-filter p rows h)
    | inr e ↦ rw e (every-filter p rows h)
  ]

  every_as_foldr : (rows : List Row) → every q rows ≡ foldr (λ r b. q r && b) true rows
  every_as_foldr [] = refl
  every_as_foldr (r ∷ rows) = ap (λ b. q r && b) (every_as_foldr rows)

  and_swap : (a b c : Bool) → (a && (b && c)) ≡ (b && (a && c))
  and_swap true b c = refl
  and_swap false true c = refl
  and_swap false false c = refl

  pub every-Perm : {xs ys : List Row} → Perm xs ys → every q xs ≡ every q ys
  every-Perm {xs} {ys} p =
      every_as_foldr xs
      ∙ Perm.foldr-eq Bool-set (λ r b. q r && b) (λ a b c. and_swap (q a) (q b) c) p true
      ∙ sym (every_as_foldr ys)

  every-drop : (n : ℕ) (rows : List Row) → every q rows ≡ true → every q (drop n rows) ≡ true
  every-drop zero rows h = h
  every-drop (suc n) [] h = refl
  every-drop (suc n) (r ∷ rows) h = every-drop n rows (ground arith)

  every-take : (n : ℕ) (rows : List Row) → every q rows ≡ true → every q (take n rows) ≡ true
  every-take zero rows h = refl
  every-take (suc n) [] h = refl
  every-take (suc n) (r ∷ rows) h = ground (arith, every-take n rows)

  pub every-page_of :
      (skip limit : ℕ) (rows : List Row)
      → every q rows ≡ true
      → every q (page_of skip limit rows) ≡ true
  every-page_of skip limit rows h = every-take limit (drop skip rows) (every-drop skip rows h)

  pub every-find_many :
      (env : Env) (p : Row → Bool) (rows : List Row)
      → ((r : Row) → p r ≡ true → q r ≡ true)
      → every q (env.db.find_many p rows) ≡ true
  every-find_many env p rows h = every-Perm (env.db.find_many_law p rows) ∙ every-filter p rows h

  pub every-order_by :
      (env : Env) (k₁ k₂ : Row → ℕ) (rows : List Row)
      → every q rows ≡ true
      → every q (env.db.order_by k₁ k₂ rows) ≡ true
  every-order_by env k₁ k₂ rows h = every-Perm (env.db.order_by_perm k₁ k₂ rows) ∙ h

  -- The row that may be found has the property.
  abbrev pub AtMost : Option Row → Type 0
  AtMost none = Unit
  AtMost (some r) = q r ≡ true

  found-AtMost :
      (p : Row → Bool) (rows : List Row) (o : Option Row)
      → find? p rows ≡ o
      → ((r : Row) → p r ≡ true → q r ≡ true)
      → AtMost o
  found-AtMost p rows none e h = tt
  found-AtMost p rows (some r) e h = h r (find?-holds p rows e)

  pub find?-AtMost :
      (p : Row → Bool) (rows : List Row)
      → ((r : Row) → p r ≡ true → q r ≡ true)
      → AtMost (find? p rows)
  find?-AtMost p rows h = found-AtMost p rows (find? p rows) refl h

  pub find_first-AtMost :
      (env : Env) (p : Row → Bool) (rows : List Row)
      → ((r : Row) → p r ≡ true → q r ≡ true)
      → AtMost (env.db.find_first p rows)
  find_first-AtMost env p rows h = rw (env.db.find_first_law p rows) (find?-AtMost p rows h)
