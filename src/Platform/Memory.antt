-- ===== src/Platform/Memory.antt =====
-- A database in memory and services to go with it: the value of `Env` at which the tests run.
use mathlib.Core.List.{Perm}
use mathlib.Core.List.Perm
use mathlib.Core.Option
use Prim.Native.String
use lexi_ledger_backend.Base.{
  ℕ, ◌+◌, ◌*◌, ◌/◌, leb, ◌∙◌, subst, ◌≤◌, ◌<◌, ◌≡◌, refl, ap, Bool, true, false, Option, none, some,
  List, [], ◌∷◌, ◌++◌, map, find?, filter, any, patch, length, not, ◌&&◌, if◌then◌else◌, arith, ltb,
  ◌==◌, Bool-cases, inl, inr, All, str_eq, eq_refl,
}
use lexi_ledger_backend.Base.Int.{ℤ, pos, pos_part, ◌+ℤ◌}
use lexi_ledger_backend.Platform.Groups.{Group, group_of, total, Precedes, IsSorted}
use lexi_ledger_backend.Platform.Client.{Prisma, refusal_of}
use lexi_ledger_backend.Platform.Services.{Env, text, number}
use lexi_ledger_backend.Platform.Tokens.{token_of, payload_of, payload_of-token_of}
use lexi_ledger_backend.Platform.Monad.{World, ok}

module _ {Row : Type 0} (k₁ k₂ : Row → ℕ) where
  abbrev before : Row → Row → Bool
  before x y = if ltb (k₁ y) (k₁ x) then true else if k₁ x == k₁ y then ltb (k₂ y) (k₂ x) else false

  abbrev insert : Row → List Row → List Row
  insert x [] = x ∷ []
  insert x (y ∷ ys) = if before y x then y ∷ insert x ys else x ∷ y ∷ ys

  abbrev sort : List Row → List Row
  sort [] = []
  sort (x ∷ xs) = insert x (sort xs)

  insert-perm : (x : Row) (xs : List Row) → Perm (insert x xs) (x ∷ xs)
  insert-perm x [] = Perm.refl _
  insert-perm x (y ∷ ys) = elim (Bool-cases (before y x)) [
    | inl e ↦ rw e (Perm.trans (Perm.cons y (insert-perm x ys)) (Perm.swap x y ys))
    | inr e ↦ rw e (Perm.refl _)
  ]

  pub sort-perm : (xs : List Row) → Perm (sort xs) xs
  sort-perm [] = Perm.refl []
  sort-perm (x ∷ xs) = Perm.trans (insert-perm x (sort xs)) (Perm.cons x (sort-perm xs))

  All-insert : (P : Row → Type 0) (x : Row) (xs : List Row) → P x → All P xs → All P (insert x xs)
  All-insert P x [] h k = (h, tt)
  All-insert P x (y ∷ ys) h k = elim (Bool-cases (before y x)) [
    | inl e ↦ rw e (k.0, All-insert P x ys h k.1)
    | inr e ↦ rw e (h, k)
  ]

  Precedes-trans : (x y z : Row) → Precedes k₁ k₂ x y → Precedes k₁ k₂ y z → Precedes k₁ k₂ x z
  Precedes-trans x y z h k = ground arith

  Precedes-All :
      (x y : Row) (ys : List Row)
      → Precedes k₁ k₂ x y
      → All (Precedes k₁ k₂ y) ys
      → All (Precedes k₁ k₂ x) ys
  Precedes-All x y [] h k = tt
  Precedes-All x y (z ∷ zs) h k = (Precedes-trans x y z h k.0, Precedes-All x y zs h k.1)

  insert-IsSorted : (x : Row) (xs : List Row) → IsSorted k₁ k₂ xs → IsSorted k₁ k₂ (insert x xs)
  insert-IsSorted x [] h = (tt, tt)
  insert-IsSorted x (y ∷ ys) h = elim (Bool-cases (before y x)) [
    | inl e ↦ rw e (All-insert (Precedes k₁ k₂ y) x ys (ground arith) h.0, insert-IsSorted x ys h.1)
    | inr e ↦
        let le : Precedes k₁ k₂ x y = ground arith in rw e ((le, Precedes-All x y ys le h.0), h)
  ]

  pub sort-IsSorted : (xs : List Row) → IsSorted k₁ k₂ (sort xs)
  sort-IsSorted [] = tt
  sort-IsSorted (x ∷ xs) = insert-IsSorted x (sort xs) (sort-IsSorted xs)

module _ {K Row : Type 0} (same : K → K → Bool) (key : Row → K) (amount : Row → ℤ) where
  abbrev bump : Row → Group K → Group K
  bump r g = record {
    key = g.key;
    sum = some (amount r +ℤ elim g.sum [ none ↦ pos 0 | some s ↦ s ]);
    count = g.count + 1;
  }

  abbrev add : Row → List (Group K) → List (Group K)
  add r [] = record { key = key r; sum = some (amount r +ℤ pos 0); count = 1 } ∷ []
  add r (g ∷ gs) = if same g.key (key r) then bump r g ∷ gs else g ∷ add r gs

  abbrev groups : List Row → List (Group K)
  groups [] = []
  groups (r ∷ rs) = add r (groups rs)

  module _ (same→≡ : (a b : K) → same a b ≡ true → a ≡ b)
      (same-refl : (a : K) → same a a ≡ true) where
    -- The group of `k` once the row `r` is counted.
    abbrev joined : Row → K → Option (Group K) → Option (Group K)
    joined r k none = some (record { key = k; sum = some (amount r +ℤ pos 0); count = 1 })
    joined r k (some g) = some (bump r g)

    find?-add_same :
        (r : Row) (gs : List (Group K))
        → find? (λ g. same g.key (key r)) (add r gs)
          ≡ joined r (key r) (find? (λ g. same g.key (key r)) gs)
    find?-add_same r [] = rw (same-refl (key r))
    find?-add_same r (g ∷ gs) = elim (Bool-cases (same g.key (key r))) [
      | inl e ↦ rw (e, e)
      | inr e ↦ rw (e, e) (find?-add_same r gs)
    ]

    find?-add_other :
        (r : Row) (k : K) (gs : List (Group K))
        → same (key r) k ≡ false
        → find? (λ g. same g.key k) (add r gs) ≡ find? (λ g. same g.key k) gs
    find?-add_other r k [] h = rw h
    find?-add_other r k (g ∷ gs) h = elim (Bool-cases (same g.key (key r))) [
      | inl e ↦ rw e (ground (arith, same→≡ g.key (key r) e))
      | inr e ↦ rw e (ground (arith, find?-add_other r k gs h))
    ]

    find?-add_at :
        (r : Row) (k : K) (gs : List (Group K))
        → same (key r) k ≡ true
        → find? (λ g. same g.key k) (add r gs) ≡ joined r k (find? (λ g. same g.key k) gs)
    find?-add_at r k gs e =
        subst
          (λ j. find? (λ g. same g.key j) (add r gs) ≡ joined r j (find? (λ g. same g.key j) gs))
          (same→≡ (key r) k e) (find?-add_same r gs)

    joined-group_of :
        (r : Row) (k : K) (rows : List Row)
        → joined r k (group_of amount k rows) ≡ group_of amount k (r ∷ rows)
    unfolding total
    joined-group_of r k [] = refl
    joined-group_of r k (x ∷ rows) = ground arith

    pub find?-groups :
        (k : K) (rows : List Row)
        → find? (λ g. same g.key k) (groups rows)
          ≡ group_of amount k (filter (λ r. same (key r) k) rows)
    find?-groups k [] = refl
    find?-groups k (r ∷ rows) = elim (Bool-cases (same (key r) k)) [
      | inl e ↦ rw e (
          find?-add_at r k (groups rows) e
          ∙ ap (joined r k) (find?-groups k rows)
          ∙ joined-group_of r k (filter (λ x. same (key x) k) rows))
      | inr e ↦ rw e (find?-add_other r k (groups rows) e ∙ find?-groups k rows)
    ]

pub filter-filter :
    {Row : Type 0} (p q : Row → Bool) (rows : List Row)
    → filter q (filter p rows) ≡ filter (λ r. p r && q r) rows
filter-filter p q [] = refl
filter-filter p q (r ∷ rows) = ground (arith, filter-filter p q rows)

abbrev database : Prisma
database = record {
  refusal = refusal_of;
  refusal_law = λ dates numbers. refl;
  find_first = find?;
  find_first_law = λ p rows. refl;
  find_many = filter;
  find_many_law = λ p rows. Perm.refl _;
  order_by = sort;
  order_by_perm = sort-perm;
  order_by_sorted = sort-IsSorted;
  count = λ p rows. length (filter p rows);
  count_law = λ p rows. refl;
  create = λ clash r rows. if any (clash r) rows then none else some (rows ++ r ∷ []);
  create_law = λ clash r rows. refl;
  create_many = λ new rows. rows ++ new;
  create_many_law = λ new rows. refl;
  update = λ p f rows. Option.map (λ r. (f r, map (patch p f) rows)) (find? p rows);
  update_law = λ p f rows. refl;
  update_many = λ p f rows. map (patch p f) rows;
  update_many_law = λ p f rows. refl;
  delete = λ p rows. Option.map (λ r. (r, filter (λ x. not (p x)) rows)) (find? p rows);
  delete_law = λ p rows. refl;
  group_by = λ same key amount p rows. groups same key amount (filter p rows);
  group_by_law = λ same key amount p rows k same→≡ same-refl.
      find?-groups same key amount same→≡ same-refl k (filter p rows)
      ∙ ap (group_of amount k) (filter-filter p (λ r. same (key r) k) rows);
}

-- The k-th draw is `k` steps above the least value, or that value.
abbrev draw : ℕ → ℕ → ℕ → ℕ
draw k min max = if ltb (min + k) max then min + k else min

pub draw_law : (k min max : ℕ) → min < max → (min ≤ draw k min max) × (draw k min max < max)
draw_law k min max h = ground arith

-- A database in memory, a clock that moves by one at each reading, and hashes that mark a text.
abbrev pub memory : Env
memory = record {
  db = database;
  clock = λ k. 1000 + k;
  uuid = λ k. k;
  random_hex = λ k n. if k == 0 then "r0" else if k == 1 then "r1" else "r2";
  random_int = draw;
  random_int_law = draw_law;
  sha256 = λ t. String.◌++◌ "#" t;
  bcrypt_hash = λ k t rounds. String.◌++◌ "$" t;
  bcrypt_compare = λ t h. str_eq (String.◌++◌ "$" t) h;
  bcrypt_law = λ k t rounds. eq_refl _;
  sign_async = λ t payload. token_of payload;
  access_expires_in = 900;
  jwt_verify = λ t token. payload_of token;
  jwt_law = λ t later payload h. payload_of-token_of payload;
  of_int = pos_part;
  times = λ a b. a * b;
  divide = λ a b. a / b;
  number_le = leb;
  round = pos;
  is_number = λ n. true;
  is_iso8601 = λ t. not (str_eq t "");
  parse_date = λ t. if str_eq t "20250801" then none else some 500;
  is_email = λ t. not (str_eq t "");
  validation_messages = "first" ∷ "second" ∷ [];
  within_size = leb;
  extname = λ t. ".pdf";
  random_uuid = λ k. "key";
  pdf_text = λ t. ok t;
  gemini = λ k t. ok (
      record {
        date = text "2025-08-01";
        description = text "Bus fare";
        amount = number 12;
        type = text "debit";
        category = text "transport";
        confidence = number 1;
      }
      ∷ []);
  validation_errors = λ raw. "[]";
  prisma_message = λ code. "prisma error";
}

-- A world with no rows.
abbrev pub empty : World
empty = record {
  users = [];
  refresh_tokens = [];
  password_reset_tokens = [];
  email_verification_tokens = [];
  upload_statements = [];
  transactions = [];
  corrections = [];
  budgets = [];
  objects = [];
  queue = [];
  sent = [];
  reads = 0;
  draws = 0;
  ids = 0;
}
