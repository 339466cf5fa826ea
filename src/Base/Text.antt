-- ===== src/Base/Text.antt =====
-- `toString` of a natural number, and the length of a text.
use Prim.Native.Nat.{ℕ, zero, suc, ◌+◌, ◌*◌, ◌/◌, ◌%◌, ◌≤◌, ◌<◌}
use Prim.Native.Char.{Char}
use Prim.Native.String
use Prim.Native.String.{String, [], ◌∷◌}
use mathlib.Core.Path.{◌≡◌}
use native.Mathlib.Omega.{arith}
use text.Mathlib.TextLemmas.{nil-append, cons-append}
use lexi_ledger_backend.Base.Tests.{if◌then◌else◌, ◌==◌, ltb, lt→ltb, not_ltb}

-- The number of characters.
unfoldable pub length : String → ℕ
length [] = 0
length (c ∷ s) = suc (length s)

unfoldable pub digit : ℕ → Char
digit d =
    if d == 0
    then "0"
    else if d == 1
    then "1"
    else if d == 2
    then "2"
    else if d == 3
    then "3"
    else if d == 4
    then "4"
    else if d == 5
    then "5"
    else if d == 6
    then "6"
    else if d == 7
    then "7"
    else if d == 8
    then "8"
    else "9"

-- At most `fuel` digits.
unfoldable pub decimal : ℕ → ℕ → String
decimal zero n = ""
decimal (suc fuel) n =
    let front = decimal fuel (n / 10) in
    if ltb n 10 then digit n ∷ [] else String.◌++◌ front (digit (n % 10) ∷ [])

-- `n.toString()`: a number below ten to the n-th has at most n digits.
unfoldable pub to_string : ℕ → String
unfolding decimal digit
to_string n = decimal (suc n) n

length-append : (s t : String) → length (String.◌++◌ s t) ≡ length s + length t
unfolding length
length-append [] t = rw nil-append (omega arith)
length-append (c ∷ s) t = rw cons-append (omega (arith, length-append s t))

-- The powers of ten.
pow_ten : ℕ → ℕ
pow_ten zero = 1
pow_ten (suc k) = 10 * pow_ten k

pow_ten_pos : (k : ℕ) → 0 < pow_ten k
unfolding pow_ten
pow_ten_pos zero = omega arith
pow_ten_pos (suc k) = omega (arith, pow_ten_pos k)

length-decimal :
    (k fuel n : ℕ) → k < fuel → pow_ten k ≤ n → n < 10 * pow_ten k → length (decimal fuel n) ≡ suc k
unfolding decimal pow_ten length
length-decimal k zero n f lo hi = absurd (omega arith)
length-decimal zero (suc fuel) n f lo hi = rw (lt→ltb n 10 (omega arith))
length-decimal (suc k) (suc fuel) n f lo hi =
    let pos = pow_ten_pos k in
    let ih = length-decimal k fuel (n / 10) (omega arith) (omega arith) (omega arith) in
    rw (not_ltb n 10 (omega arith), length-append, ih) (omega arith)

-- A number of six digits prints as six characters.
pub length-to_string_six : (n : ℕ) → 100000 ≤ n → n < 1000000 → length (to_string n) ≡ 6
unfolding to_string pow_ten
length-to_string_six n lo hi = length-decimal 5 (suc n) n (omega arith) lo hi
