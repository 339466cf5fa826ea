-- ===== src/Transactions/Correction.antt =====
-- Proofs about `correct` of src/module/transactions/transactions.service.ts and its audit trail.
use mathlib.Core.Option
use lexi_ledger_backend.Base.{
  ℕ, ◌+◌, ◌≡◌, refl, sym, append-nil, subst, ◌∙◌, ap, Bool, true, false, Option, none, some, List,
  [], ◌∷◌, ◌++◌, map, arith, ◌==◌, ==_refl, ◌&&◌, not, filter, filter-append, filter-patch, find?,
  find?-map, find?-holds, patch, if◌then◌else◌, Bool-cases, inl, inr,
}
use lexi_ledger_backend.Schema.{Transaction, TransactionCorrection, TransactionCategory}
use lexi_ledger_backend.Platform.{World, ok, err, not_found, Env}
use lexi_ledger_backend.Transactions.{
  category_eq, is_of_user, correct, correct_found, apply_correction, find_by_id_for_user,
  transaction_not_found,
}
use lexi_ledger_backend.Transactions.Totals.{category_eq→≡}

-- The transaction of a user, by its id, and the corrections of it, oldest first.
abbrev pub stored : ℕ → ℕ → World → Option Transaction
stored id user_id w = find? (is_of_user id user_id) w.transactions

abbrev pub is_correction_of : ℕ → ℕ → TransactionCorrection → Bool
is_correction_of id user_id c = c.transaction_id == id && c.user_id == user_id

abbrev pub trail : ℕ → ℕ → World → List TransactionCorrection
trail id user_id w = filter (is_correction_of id user_id) w.corrections

-- The corrections lead from one category to another: each starts where the one before it ended.
abbrev pub Leads : TransactionCategory → List TransactionCorrection → TransactionCategory → Type 0
Leads from [] to = from ≡ to
Leads from (c ∷ cs) to = (c.previous_category ≡ from) × Leads c.new_category cs to

Leads-append :
    (from to : TransactionCategory) (cs : List TransactionCorrection) (c : TransactionCorrection)
    → Leads from cs to
    → c.previous_category ≡ to
    → Leads from (cs ++ c ∷ []) c.new_category
Leads-append from to [] c h e = (e ∙ sym h, refl)
Leads-append from to (x ∷ cs) c (h, hs) e = (h, Leads-append x.new_category to cs c hs e)

module _ (env : Env) where
  abbrev pub with_category : TransactionCategory → Transaction → Transaction
  with_category category t = record t { category = category }

  -- The correction that is recorded in a world.
  abbrev pub recorded :
      (user_id id : ℕ) (previous new : TransactionCategory) → World → TransactionCorrection
  recorded user_id id previous new w = record {
    id = env.uuid w.ids;
    transaction_id = id;
    user_id = user_id;
    previous_category = previous;
    new_category = new;
    corrected_at = env.clock w.reads;
  }

  abbrev pub after_correction :
      (user_id id : ℕ) (previous new : TransactionCategory) → World → World
  after_correction user_id id previous new w = record w {
    transactions = map (patch (is_of_user id user_id) (with_category new)) w.transactions;
    corrections = w.corrections ++ recorded user_id id previous new w ∷ [];
    ids = w.ids + 1;
    reads = w.reads + 1;
  }

  correct-stored :
      (user_id id : ℕ) (category : TransactionCategory) (w : World)
      → correct env user_id id category w
        ≡ correct_found env user_id id category (stored id user_id w) w
  unfolding correct find_by_id_for_user
  correct-stored user_id id category w = rw env.db.find_first_law

  correct_changed :
      (user_id id : ℕ) (category : TransactionCategory) (w : World) {t : Transaction}
      → stored id user_id w ≡ some t
      → category_eq t.category category ≡ false
      → correct env user_id id category w
        ≡ (ok (with_category category t), after_correction user_id id t.category category w)
  unfolding apply_correction
  correct_changed user_id id category w {t} found ne =
      rw (correct-stored user_id id category w, found, ne)
        (ground (
          arith,
          env.db.update_law (is_of_user id user_id) (with_category category) w.transactions,
          env.db.create_many_law (recorded user_id id t.category category w ∷ []) w.corrections,
          found,
        ))

  correct_same :
      (user_id id : ℕ) (category : TransactionCategory) (w : World) {t : Transaction}
      → stored id user_id w ≡ some t
      → category_eq t.category category ≡ true
      → correct env user_id id category w ≡ (ok t, w)
  correct_same user_id id category w found same =
      rw (correct-stored user_id id category w, found, same)

  with_category_same :
      (category : TransactionCategory) (t : Transaction)
      → category_eq t.category category ≡ true
      → with_category category t ≡ t
  with_category_same category t same =
      ap (λ c. with_category c t) (sym (category_eq→≡ t.category category same))

  -- Correcting a category: the transaction is answered with its new category; no other
  -- transaction changes; if the category is new, one correction is recorded, and none if it is
  -- the one that the transaction has.
  pub correct_records :
      (user_id id : ℕ) (category : TransactionCategory) (w : World) {t : Transaction}
      → stored id user_id w ≡ some t
      → let (result, w') = correct env user_id id category w in
        (result ≡ ok (with_category category t))
        × (stored id user_id w' ≡ some (with_category category t))
        × (filter (λ x. not (is_of_user id user_id x)) w'.transactions
            ≡ filter (λ x. not (is_of_user id user_id x)) w.transactions)
        × (w'.corrections
            ≡ w.corrections
              ++ (if category_eq t.category category
                  then []
                  else recorded user_id id t.category category w ∷ []))
  correct_records user_id id category w {t} found =
      elim (Bool-cases (category_eq t.category category)) [
        | inl same ↦
            rw
              (
                correct_same user_id id category w found same,
                same,
                with_category_same category t same,
                append-nil,
              )
              (refl, found, refl, refl)
        | inr new ↦
            rw (correct_changed user_id id category w found new, new)
              (
                refl,
                find?-map (is_of_user id user_id)
                      (patch (is_of_user id user_id) (with_category category)) w.transactions
                      (λ x. ground arith)
                    ∙ ap (Option.map (patch (is_of_user id user_id) (with_category category))) found
                    ∙ ground (arith, find?-holds (is_of_user id user_id) w.transactions found),
                filter-patch (is_of_user id user_id) (λ x. not (is_of_user id user_id x))
                    (with_category category) w.transactions (λ x e. ground arith),
                refl,
              )
      ]

  -- The audit trail stays complete: if the corrections of a transaction lead from a category to
  -- the one that it has, then after a further correction they lead from there to the new one.
  pub correct-Leads :
      (user_id id : ℕ) (from category : TransactionCategory) (w : World) {t : Transaction}
      → stored id user_id w ≡ some t
      → Leads from (trail id user_id w) t.category
      → Leads from (trail id user_id (correct env user_id id category w).1) category
  correct-Leads user_id id from category w {t} found h =
      elim (Bool-cases (category_eq t.category category)) [
        | inl same ↦
            rw (correct_same user_id id category w found same)
              (subst (Leads from (trail id user_id w)) (category_eq→≡ t.category category same) h)
        | inr new ↦
            rw
              (
                correct_changed user_id id category w found new,
                filter-append,
                ==_refl id,
                ==_refl user_id,
              )
              (Leads-append from t.category (trail id user_id w)
                (recorded user_id id t.category category w) h refl)
      ]

  -- A transaction that the user does not have is not corrected: the answer is
  -- `NotFoundException`, and nothing changes.
  pub correct_missing :
      (user_id id : ℕ) (category : TransactionCategory) (w : World)
      → stored id user_id w ≡ none
      → correct env user_id id category w ≡ (err (not_found transaction_not_found), w)
  correct_missing user_id id category w missing = rw (correct-stored user_id id category w, missing)
