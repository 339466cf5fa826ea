-- ===== src/OneTimeTokens/Rows.antt =====
-- Lemmas about the rows of both tables of one-time codes.
use mathlib.Core.Option
use lexi_ledger_backend.Base.{
  ℕ, String, ◌≡◌, refl, ◌∙◌, ap, Bool, true, false, none, some, List, [], ◌∷◌, ◌++◌, map, ◌==◌, not,
  ◌&&◌, str_eq, eq_refl, find?, any, patch, All, arith, find?-map, filter, find?-append_none,
}
use lexi_ledger_backend.Schema.{OneTimeToken}
use lexi_ledger_backend.OneTimeTokens.{World, used, active_of, clash}

-- The users and the emails sent are as they were.
pub record SameElsewhere (before w : World) : Type 0 where
  pub users : w.users ≡ before.users
  pub sent : w.sent ≡ before.sent

-- A row that clashes with none has a hash that none has.
pub hash_free :
    (row : OneTimeToken) (rows : List OneTimeToken)
    → any (clash row) rows ≡ false
    → find? (λ x. str_eq x.token_hash row.token_hash) rows ≡ none
hash_free row [] h = refl
hash_free row (x ∷ rows) h = ground (arith, hash_free row rows)

-- So it is found by its hash once it is added.
pub found_after_create :
    (row : OneTimeToken) (rows : List OneTimeToken)
    → any (clash row) rows ≡ false
    → find? (λ x. str_eq x.token_hash row.token_hash) (rows ++ row ∷ []) ≡ some row
found_after_create row rows h =
    find?-append_none (λ x. str_eq x.token_hash row.token_hash) rows (row ∷ [])
      (hash_free row rows h)
    ∙ ground (arith, eq_refl row.token_hash)

-- Marking rows as used moves no row, so a lookup finds the same row, perhaps marked.
pub found_after_patch :
    (hash : String) (p : OneTimeToken → Bool) (t : ℕ) (rows : List OneTimeToken) {r : OneTimeToken}
    → find? (λ x. str_eq x.token_hash hash) rows ≡ some r
    → find? (λ x. str_eq x.token_hash hash) (map (patch p (used t)) rows)
      ≡ some (patch p (used t) r)
found_after_patch hash p t rows h =
    find?-map (λ x. str_eq x.token_hash hash) (patch p (used t)) rows (λ x. ground arith)
    ∙ ap (Option.map (patch p (used t))) h

-- No code of the user is active among the rows.
abbrev pub HasNoCode : ℕ → List OneTimeToken → Type 0
HasNoCode user_id rows = All (λ r. active_of user_id r ≡ false) rows

-- Marking one row, and then all other active rows of the user, leaves none.
pub marked-HasNoCode :
    (user_id id t u : ℕ) (rows : List OneTimeToken)
    → HasNoCode user_id (
        map
          (patch (λ r. active_of user_id r && not (r.id == id)) (used u))
          (map (patch (λ r. r.id == id) (used t)) rows))
marked-HasNoCode user_id id t u [] = tt
marked-HasNoCode user_id id t u (x ∷ rows) = (ground arith, marked-HasNoCode user_id id t u rows)

pub invalidated-HasNoCode :
    (user_id t : ℕ) (rows : List OneTimeToken)
    → HasNoCode user_id (map (patch (active_of user_id) (used t)) rows)
invalidated-HasNoCode user_id t [] = tt
invalidated-HasNoCode user_id t (x ∷ rows) = (ground arith, invalidated-HasNoCode user_id t rows)

-- The active codes of a user, where there was none and one is added.
pub active_after_create :
    (user_id : ℕ) (row : OneTimeToken) (rows : List OneTimeToken)
    → active_of user_id row ≡ true
    → HasNoCode user_id rows
    → filter (active_of user_id) (rows ++ row ∷ []) ≡ row ∷ []
active_after_create user_id row [] e h = rw e
active_after_create user_id row (x ∷ rows) e (h, hs) =
    rw (h, active_after_create user_id row rows e hs)
