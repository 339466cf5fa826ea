-- ===== src/Budgets/MonthText.antt =====
-- Proofs about the text of a month that `getCurrentMonthRange` of
-- src/module/budget/budgets.service.ts writes and `getMonthRange` splits.
use Prim.Native.Char.{code}
use Prim.Native.String
use text.Mathlib.TextLemmas.{nil-append, cons-append}
use lexi_ledger_backend.Base.{
  ℕ, zero, suc, ◌+◌, ◌-◌, ◌*◌, ◌/◌, ◌%◌, ◌<◌, ◌≡◌, String, Bool, true, false, some, List, [], ◌∷◌,
  ◌++◌, refl, subst, arith, Bool-cases, inl, inr, ltb, ◌==◌, if◌then◌else◌, str_eq, eq_iff,
}
use lexi_ledger_backend.Base.Text
use lexi_ledger_backend.Base.Text.{to_string, decimal, digit}
use lexi_ledger_backend.Budgets.{
  codes, number_of, split_dash, year_and_month, month_text, pad_two, all_digits,
}

codes-append : (s t : String) → codes (String.◌++◌ s t) ≡ codes s ++ codes t
codes-append String.[] t = rw nil-append refl
codes-append (String.◌∷◌ c s) t = rw (cons-append, codes-append s t) refl

number_of-append_one :
    (acc c : ℕ) (cs : List ℕ) → number_of acc (cs ++ c ∷ []) ≡ number_of acc cs * 10 + (c - b'0')
number_of-append_one acc c [] = refl
number_of-append_one acc c (x ∷ cs) = number_of-append_one (acc * 10 + (x - b'0')) c cs

code-digit : (d : ℕ) → d < 10 → code (digit d) ≡ 48 + d
unfolding digit
code-digit zero h = refl
code-digit (suc zero) h = refl
code-digit (suc (suc zero)) h = refl
code-digit (suc (suc (suc zero))) h = refl
code-digit (suc (suc (suc (suc zero)))) h = refl
code-digit (suc (suc (suc (suc (suc zero))))) h = refl
code-digit (suc (suc (suc (suc (suc (suc zero)))))) h = refl
code-digit (suc (suc (suc (suc (suc (suc (suc zero))))))) h = refl
code-digit (suc (suc (suc (suc (suc (suc (suc (suc zero)))))))) h = refl
code-digit (suc (suc (suc (suc (suc (suc (suc (suc (suc zero))))))))) h = refl
code-digit (suc (suc (suc (suc (suc (suc (suc (suc (suc (suc n)))))))))) h = absurd (omega arith)

-- A text without a dash.
abbrev has_no_dash : List ℕ → Bool
has_no_dash [] = true
has_no_dash (c ∷ cs) = if c == b'-' then false else has_no_dash cs

all_digits-append :
    (xs ys : List ℕ) → all_digits xs ≡ true → all_digits ys ≡ true → all_digits (xs ++ ys) ≡ true
all_digits-append [] ys h k = k
all_digits-append (x ∷ xs) ys h k = ground (arith, all_digits-append xs ys)

-- A text of digits has no dash.
digits_without_dash : (xs : List ℕ) → all_digits xs ≡ true → has_no_dash xs ≡ true
digits_without_dash [] h = refl
digits_without_dash (x ∷ xs) h = ground (arith, digits_without_dash xs)

-- The digits of a number spell it.
abbrev Spells : ℕ → String → Type 0
Spells n s = (number_of 0 (codes s) ≡ n) × (all_digits (codes s) ≡ true)

digit-Spells : (d : ℕ) → d < 10 → Spells d (String.◌∷◌ (digit d) String.[])
digit-Spells d h = let e = code-digit d h in (ground (arith, e), ground (arith, e))

append_digit-Spells :
    (n d : ℕ) (s : String)
    → d < 10
    → Spells n s
    → Spells (n * 10 + d) (String.◌++◌ s (String.◌∷◌ (digit d) String.[]))
append_digit-Spells n d s h (number, clean) =
    let e = code-digit d h in
    rw codes-append (
      rw (number_of-append_one, number, e) (omega arith),
      all_digits-append (codes s) _ clean (ground (arith, e)),
    )

decimal-Spells : (fuel n : ℕ) → n < fuel → Spells n (decimal fuel n)
unfolding decimal
decimal-Spells zero n h = absurd (omega arith)
decimal-Spells (suc fuel) n h = elim (Bool-cases (ltb n 10)) [
  | inl e ↦ rw e (digit-Spells n (ground arith))
  | inr e ↦
      let digits : n / 10 * 10 + n % 10 ≡ n = omega arith in
      let spelled =
        append_digit-Spells (n / 10) (n % 10) (decimal fuel (n / 10)) (omega arith)
          (decimal-Spells fuel (n / 10) (ground arith)) in
      rw e (
        subst
          (λ k.
            Spells k (String.◌++◌ (decimal fuel (n / 10)) (String.◌∷◌ (digit (n % 10)) String.[])))
          digits spelled)
]

to_string-Spells : (n : ℕ) → Spells n (to_string n)
unfolding to_string
to_string-Spells n = decimal-Spells (suc n) n (omega arith)

pad_two-Spells : (n : ℕ) (s : String) → Spells n s → Spells n (pad_two s)
pad_two-Spells n s h = elim (Bool-cases (ltb (Text.length s) 2)) [
  | inl e ↦ rw (e, codes-append) h
  | inr e ↦ rw e h
]

-- What stands before the first dash, and what stands after it.
split_dash_clean : (xs : List ℕ) → has_no_dash xs ≡ true → split_dash xs ≡ (xs, [])
split_dash_clean [] h = refl
split_dash_clean (x ∷ xs) h = ground (arith, split_dash_clean xs)

split_dash-append :
    (xs ys : List ℕ)
    → has_no_dash xs ≡ true
    → has_no_dash ys ≡ true
    → split_dash (xs ++ b'-' ∷ ys) ≡ (xs, ys ∷ [])
split_dash-append [] ys h k = rw (split_dash_clean ys k) refl
split_dash-append (x ∷ xs) ys h k = ground (arith, split_dash-append xs ys)

-- The text that is written for a year and a month is read back as that year and, counted from
-- one, that month.
pub month_text_roundtrip : (y m : ℕ) → year_and_month (month_text y m) ≡ some (y, m + 1)
unfolding year_and_month month_text
month_text_roundtrip y m =
    let (year, clean_year) = to_string-Spells y in
    let (month, clean_month) =
      pad_two-Spells (m + 1) (to_string (m + 1)) (to_string-Spells (m + 1)) in
    rw
      (
        codes-append,
        codes-append,
        split_dash-append (codes (to_string y)) (codes (pad_two (to_string (m + 1))))
            (digits_without_dash (codes (to_string y)) clean_year)
            (digits_without_dash (codes (pad_two (to_string (m + 1)))) clean_month),
        clean_year,
        clean_month,
        year,
        month,
      )
      refl

-- That text is not empty: the empty text splits into one part.
pub month_text_not_empty : (y m : ℕ) → str_eq (month_text y m) "" ≡ false
unfolding year_and_month
month_text_not_empty y m = elim (Bool-cases (str_eq (month_text y m) "")) [
  | inr e ↦ e
  | inl e ↦
      let empty : month_text y m ≡ "" = (eq_iff (month_text y m) "").0 e in
      let read = month_text_roundtrip y m in absurd (ground (arith, rw empty at read))
]
