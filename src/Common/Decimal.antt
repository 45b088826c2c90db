-- ===== src/Common/Decimal.antt =====
-- Numbers in template literals and back: `${n}` and `Number(text)` for digits. Numbers are exact,
-- so the models are faithful below 2^53.
use Prim.Native.Nat.{ℕ, zero, suc, ◌+◌, ◌-◌, ◌*◌, ◌/◌, ◌%◌, ◌<◌}
use Prim.Native.Char.{Char, code, nul}
use Prim.Native.String.{String}
use mathlib.Core.Path.{◌≡◌, refl, ap, ◌∙◌}
use mathlib.Core.Logic.{inl, inr}
use mathlib.Core.Bool.{Bool, true, false, ◌&&◌}
use text.Mathlib.Text.{◌==◌ as str_eq}
use native.Mathlib.Omega.{arith}
use planisfy.Common.Text.{cons_filled}
use planisfy.Common.Tests.{if◌then◌else◌, ltb, leb, ◌==◌, ==_iff, ltb→lt, Bool-cases}

char_in : String → ℕ → Char
char_in String.[] n = nul
char_in (String.◌∷◌ c s) zero = c
char_in (String.◌∷◌ c s) (suc n) = char_in s n

unfoldable pub digit : ℕ → Char
unfolding char_in
digit d = char_in "0123456789" d

abbrev pub is_digit : Char → Bool
is_digit c = leb 48 (code c) && leb (code c) 57

-- The digits of `n` before a text; the number of rounds is at most `n + 1`.
decimal_onto : ℕ → ℕ → String → String
unfolding digit
decimal_onto zero n rest = rest
decimal_onto (suc f) n rest =
    let more = decimal_onto f (n / 10) (String.◌∷◌ (digit (n % 10)) rest) in
    if ltb n 10 then String.◌∷◌ (digit (n % 10)) rest else more

unfoldable pub decimal : ℕ → String
unfolding decimal_onto
decimal n = decimal_onto (suc n) n ""

abbrev pub digits_value : ℕ → String → ℕ
digits_value acc String.[] = acc
digits_value acc (String.◌∷◌ c s) = digits_value (acc * 10 + (code c - 48)) s

abbrev pub all_digits : String → Bool
all_digits String.[] = true
all_digits (String.◌∷◌ c s) = is_digit c && all_digits s

-- A test on each of the first numbers.
unfoldable pub every_number : (ℕ → Bool) → (bound : ℕ) → Bool
every_number test zero = true
every_number test (suc last) =
    let smaller = every_number test last in if test last then smaller else false

pub every_number-holds :
    (test : ℕ → Bool) (bound x : ℕ) → x < bound → every_number test bound ≡ true → test x ≡ true
unfolding every_number
every_number-holds test zero x small passed = absurd (omega arith)
every_number-holds test (suc last) x small passed = ground (arith, every_number-holds test last x)

digit_table : every_number (λ d. is_digit (digit d) && (code (digit d) == 48 + d)) 10 ≡ true
unfolding every_number digit
digit_table = refl

digit_lem : (d : ℕ) → d < 10 → (is_digit (digit d) && (code (digit d) == 48 + d)) ≡ true
digit_lem d h =
    every_number-holds (λ x. is_digit (digit x) && (code (digit x) == 48 + x)) 10 d h digit_table

code-digit : (d : ℕ) → d < 10 → code (digit d) ≡ 48 + d
code-digit d h = (==_iff (code (digit d)) (48 + d)).0 (ground (arith, digit_lem d h))

digit-is_digit : (d : ℕ) → d < 10 → is_digit (digit d) ≡ true
digit-is_digit d h = ground (arith, digit_lem d h)

digits_value-decimal_onto :
    (f n : ℕ) (rest : String) → n < f → digits_value 0 (decimal_onto f n rest) ≡ digits_value n rest
unfolding decimal_onto
digits_value-decimal_onto zero n rest h = absurd (omega arith)
digits_value-decimal_onto (suc f) n rest h = elim (Bool-cases (ltb n 10)) [
  | inl e ↦ rw e (ap (λ x. digits_value x rest) (omega (arith, code-digit (n % 10), ltb→lt n 10 e)))
  | inr e ↦ rw e (
      digits_value-decimal_onto f (n / 10) (String.◌∷◌ (digit (n % 10)) rest) (ground arith)
      ∙ ap (λ x. digits_value x rest) (omega (arith, code-digit (n % 10))))
]

-- Reading back what was printed.
pub digits_value-decimal : (n : ℕ) → digits_value 0 (decimal n) ≡ n
unfolding decimal
digits_value-decimal n = digits_value-decimal_onto (suc n) n "" (omega arith)

all_digits-decimal_onto :
    (f n : ℕ) (rest : String) → all_digits rest ≡ true → all_digits (decimal_onto f n rest) ≡ true
unfolding decimal_onto
all_digits-decimal_onto zero n rest h = h
all_digits-decimal_onto (suc f) n rest h =
    let d = digit-is_digit (n % 10) (omega arith) in
    let longer : all_digits (String.◌∷◌ (digit (n % 10)) rest) ≡ true = rw d h in
    elim (Bool-cases (ltb n 10)) [
      | inl e ↦ rw e longer
      | inr e ↦ rw e (all_digits-decimal_onto f (n / 10) (String.◌∷◌ (digit (n % 10)) rest) longer)
    ]

pub all_digits-decimal : (n : ℕ) → all_digits (decimal n) ≡ true
unfolding decimal
all_digits-decimal n = all_digits-decimal_onto (suc n) n "" refl

decimal_onto-filled :
    (f n : ℕ) (c : Char) (rest : String) → str_eq (decimal_onto f n (String.◌∷◌ c rest)) "" ≡ false
unfolding decimal_onto
decimal_onto-filled zero n c rest = cons_filled c rest
decimal_onto-filled (suc f) n c rest = elim (Bool-cases (ltb n 10)) [
  | inl e ↦ rw e (cons_filled (digit (n % 10)) (String.◌∷◌ c rest))
  | inr e ↦ rw e (decimal_onto-filled f (n / 10) (digit (n % 10)) (String.◌∷◌ c rest))
]

pub decimal-filled : (n : ℕ) → str_eq (decimal n) "" ≡ false
unfolding decimal decimal_onto
decimal-filled n = elim (Bool-cases (ltb n 10)) [
  | inl e ↦ rw e (cons_filled (digit (n % 10)) "")
  | inr e ↦ rw e (decimal_onto-filled n (n / 10) (digit (n % 10)) "")
]
