-- ===== src/Base/Lists.antt =====
-- Lists of rows under Boolean tests: the first match, all matches, a change of the matches.
use Prim.Native.Nat.{ℕ, zero, suc, ◌+◌}
use mathlib.Core.Path.{◌≡◌, refl}
use mathlib.Core.Logic.{◌⊎◌, inl, inr}
use mathlib.Core.Bool.{Bool, true, false, not, ◌||◌}
use mathlib.Core.Option
use mathlib.Core.Option.{Option, none, some}
use mathlib.Core.List.{List, [], ◌∷◌, ◌++◌, map}
use native.Mathlib.Omega.{arith}
use lexi_ledger_backend.Base.Tests.{if◌then◌else◌, Bool-cases}

module _ {ℓ} {A : Type ℓ} where
  abbrev pub length : List A → ℕ
  length [] = 0
  length (_ ∷ xs) = suc (length xs)

  abbrev pub take : ℕ → List A → List A
  take zero xs = []
  take (suc n) [] = []
  take (suc n) (x ∷ xs) = x ∷ take n xs

  abbrev pub drop : ℕ → List A → List A
  drop zero xs = xs
  drop (suc n) [] = []
  drop (suc n) (x ∷ xs) = drop n xs

  abbrev pub find? : (A → Bool) → List A → Option A
  find? p [] = none
  find? p (x ∷ xs) = if p x then some x else find? p xs

  abbrev pub filter : (A → Bool) → List A → List A
  filter p [] = []
  filter p (x ∷ xs) = if p x then x ∷ filter p xs else filter p xs

  abbrev pub any : (A → Bool) → List A → Bool
  any p [] = false
  any p (x ∷ xs) = p x || any p xs

  -- The row with the change `f` if it matches `p`.
  abbrev pub patch : (A → Bool) → (A → A) → A → A
  patch p f x = if p x then f x else x

  abbrev pub All {κ} : (A → Type κ) → List A → Type κ
  All P [] = Unit
  All P (x ∷ xs) = P x × All P xs

-- The row stands in the list.
abbrev pub Memb : {A : Type 0} → A → List A → Type 0
Memb a [] = ⊥
Memb a (x ∷ xs) = (a ≡ x) ⊎ Memb a xs

module _ {ℓ} {A : Type ℓ} where
  -- A change that the test does not see leaves the first match where it was.
  pub find?-map :
      (p : A → Bool) (f : A → A) (xs : List A)
      → ((x : A) → p (f x) ≡ p x)
      → find? p (map f xs) ≡ Option.map f (find? p xs)
  find?-map p f [] h = refl
  find?-map p f (x ∷ xs) h = elim (Bool-cases (p x)) [
    | inl e ↦ rw (h x, e)
    | inr e ↦ rw (h x, e) (find?-map p f xs h)
  ]

  pub find?-append_some :
      (p : A → Bool) (xs ys : List A) {a : A} → find? p xs ≡ some a → find? p (xs ++ ys) ≡ some a
  find?-append_some p [] ys h = cc
  find?-append_some p (x ∷ xs) ys h = elim (Bool-cases (p x)) [
    | inl e ↦ rw e (rw e at h)
    | inr e ↦ rw e (find?-append_some p xs ys (rw e at h))
  ]

  pub find?-append_none :
      (p : A → Bool) (xs ys : List A) → find? p xs ≡ none → find? p (xs ++ ys) ≡ find? p ys
  find?-append_none p [] ys h = refl
  find?-append_none p (x ∷ xs) ys h = elim (Bool-cases (p x)) [
    | inl e ↦ cc (rw e at h)
    | inr e ↦ rw e (find?-append_none p xs ys (rw e at h))
  ]

  -- The first match matches.
  pub find?-holds : (p : A → Bool) (xs : List A) {a : A} → find? p xs ≡ some a → p a ≡ true
  find?-holds p [] h = cc
  find?-holds p (x ∷ xs) h = elim (Bool-cases (p x)) [
    | inl e ↦ ground (arith, e)
    | inr e ↦ find?-holds p xs (rw e at h)
  ]

  pub any_of_find? : (p : A → Bool) (xs : List A) → find? p xs ≡ none → any p xs ≡ false
  any_of_find? p [] h = refl
  any_of_find? p (x ∷ xs) h = ground (arith, any_of_find? p xs)

  pub All-append {κ} : (P : A → Type κ) (xs ys : List A) → All P xs → All P ys → All P (xs ++ ys)
  All-append P [] ys h k = k
  All-append P (x ∷ xs) ys h k = (h.0, All-append P xs ys h.1 k)

  pub All-map {κ μ} :
      (P : A → Type κ) (Q : A → Type μ) (f : A → A) (xs : List A)
      → ((x : A) → P x → Q (f x))
      → All P xs
      → All Q (map f xs)
  All-map P Q f [] h k = tt
  All-map P Q f (x ∷ xs) h k = (h x k.0, All-map P Q f xs h k.1)

  pub All-intro {κ} : (P : A → Type κ) (xs : List A) → ((x : A) → P x) → All P xs
  All-intro P [] h = tt
  All-intro P (x ∷ xs) h = (h x, All-intro P xs h)

  find?_head :
      (p : A → Bool) {x : A} (xs : List A) {a : A} → p x ≡ true → find? p (x ∷ xs) ≡ some a → x ≡ a
  find?_head p xs f h = ground (arith, f)

  -- Where one test has a match that another accepts, the other has a match too.
  pub find?-some_of :
      (p q : A → Bool) (xs : List A) {a : A}
      → find? p xs ≡ some a
      → q a ≡ true
      → (b : A) × (find? q xs ≡ some b)
  find?-some_of p q [] h k = cc
  find?-some_of p q (x ∷ xs) h k = elim (Bool-cases (q x)) [
    | inl e ↦ (x, rw e)
    | inr e ↦ elim (Bool-cases (p x)) [
      | inl f ↦ absurd (cc (find?_head p xs f h, k, e))
      | inr f ↦ rw e (find?-some_of p q xs (rw f at h) k)
    ]
  ]

  -- A change that the test does not see keeps its answer on the whole list.
  pub any-map :
      (p : A → Bool) (f : A → A) (xs : List A)
      → ((x : A) → p (f x) ≡ p x)
      → any p (map f xs) ≡ any p xs
  any-map p f [] h = refl
  any-map p f (x ∷ xs) h = rw (h x, any-map p f xs h)

  -- A change of the rows that fit `p` is not seen among rows that do not.
  pub filter-patch :
      (p q : A → Bool) (f : A → A) (xs : List A)
      → ((x : A) → p x ≡ true → (q x ≡ false) × (q (f x) ≡ false))
      → filter q (map (patch p f) xs) ≡ filter q xs
  filter-patch p q f [] h = refl
  filter-patch p q f (x ∷ xs) h = elim (Bool-cases (p x)) [
    | inl e ↦ rw (e, (h x e).0, (h x e).1) (filter-patch p q f xs h)
    | inr e ↦ rw (e, filter-patch p q f xs h)
  ]

module _ {ℓ κ} {A : Type ℓ} {B : Type κ} where
  pub find?-map_to :
      (q : B → Bool) (f : A → B) (xs : List A)
      → find? q (map f xs) ≡ Option.map f (find? (λ x. q (f x)) xs)
  find?-map_to q f [] = refl
  find?-map_to q f (x ∷ xs) = elim (Bool-cases (q (f x))) [
    | inl e ↦ rw e
    | inr e ↦ rw e (find?-map_to q f xs)
  ]

module _ {ℓ} {A : Type ℓ} where
  pub length-append : (xs ys : List A) → length (xs ++ ys) ≡ length xs + length ys
  length-append [] ys = omega arith
  length-append (x ∷ xs) ys = omega (arith, length-append xs ys)

  pub filter-append :
      (p : A → Bool) (xs ys : List A) → filter p (xs ++ ys) ≡ filter p xs ++ filter p ys
  filter-append p [] ys = refl
  filter-append p (x ∷ xs) ys = elim (Bool-cases (p x)) [
    | inl e ↦ rw (e, filter-append p xs ys)
    | inr e ↦ rw (e, filter-append p xs ys)
  ]

  -- A change that the test does not see keeps the number of matches.
  pub length-filter-map :
      (p : A → Bool) (f : A → A) (xs : List A)
      → ((x : A) → p (f x) ≡ p x)
      → length (filter p (map f xs)) ≡ length (filter p xs)
  length-filter-map p f [] h = refl
  length-filter-map p f (x ∷ xs) h = elim (Bool-cases (p x)) [
    | inl e ↦ rw (h x, e, length-filter-map p f xs h)
    | inr e ↦ rw (h x, e) (length-filter-map p f xs h)
  ]

  -- Tests that agree keep the same elements.
  pub filter_same :
      (p q : A → Bool) (xs : List A) → ((x : A) → p x ≡ q x) → filter p xs ≡ filter q xs
  filter_same p q [] h = refl
  filter_same p q (x ∷ xs) h = rw (h x, filter_same p q xs h) refl

  pub filter_of_find? : (p : A → Bool) (xs : List A) → find? p xs ≡ none → filter p xs ≡ []
  filter_of_find? p [] h = refl
  filter_of_find? p (x ∷ xs) h = elim (Bool-cases (p x)) [
    | inl e ↦ cc (rw e at h)
    | inr e ↦ rw e (filter_of_find? p xs (rw e at h))
  ]

  pub find?-filter-not : (p : A → Bool) (xs : List A) → find? p (filter (λ x. not (p x)) xs) ≡ none
  find?-filter-not p [] = refl
  find?-filter-not p (x ∷ xs) = elim (Bool-cases (p x)) [
    | inl e ↦ rw e (find?-filter-not p xs)
    | inr e ↦ rw (e, e) (find?-filter-not p xs)
  ]
