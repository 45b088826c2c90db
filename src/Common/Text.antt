-- ===== src/Common/Text.antt =====
-- Texts as the code cuts them: `String.prototype.trim`, with their length and concatenation.
use Prim.Native.Nat.{ℕ, suc, ◌+◌}
use Prim.Native.Char.{Char, code}
use Prim.Native.String.{String}
use mathlib.Core.Path.{◌≡◌, ap}
use native.Mathlib.Omega.{arith}
use mathlib.Core.Option.{Option, none, some}
use mathlib.Core.List.{List, [], ◌∷◌}
use mathlib.Core.Bool.{Bool, false, ◌&&◌, ◌||◌}
use text.Mathlib.Text.{◌==◌ as str_eq}
use text.Mathlib.TextEquality.{eq_iff}
use mathlib.Core.Logic.{inl, inr}
use planisfy.Common.Tests.{if◌then◌else◌, ◌==◌, leb, Bool-cases}

abbrev is_space_code : ℕ → Bool
is_space_code n =
    (leb 9 n && leb n 13)
    || (n == 32
        || (n == 160
            || (n == 5760
                || ((leb 8192 n && leb n 8202)
                    || (n == 8232
                        || (n == 8233
                            || (n == 8239 || (n == 8287 || (n == 12288 || n == 65279)))))))))

-- White space and line terminators, as ECMAScript lists them.
abbrev pub is_space : Char → Bool
is_space c = is_space_code (code c)

unfoldable pub trim_start : String → String
trim_start String.[] = String.[]
trim_start (String.◌∷◌ c s) = let rest = trim_start s in if is_space c then rest else String.◌∷◌ c s

unfoldable pub trim_end : String → String
trim_end String.[] = String.[]
trim_end (String.◌∷◌ c s) =
    let rest = trim_end s in if str_eq rest "" && is_space c then "" else String.◌∷◌ c rest

abbrev pub trim : String → String
trim s = trim_end (trim_start s)

-- The text up to the first separator, given by its code, and the pieces behind it.
unfoldable pub split_on : ℕ → String → String × List String
split_on sep String.[] = (String.[], [])
split_on sep (String.◌∷◌ c s) =
    let (first, rest) = split_on sep s in
    if code c == sep then (String.[], first ∷ rest) else (String.◌∷◌ c first, rest)

-- `split`
abbrev pub pieces : ℕ → String → List String
pieces sep s = (split_on sep s).0 ∷ (split_on sep s).1

-- What is behind a prefix of a text.
abbrev pub after_prefix : String → String → Option String
after_prefix String.[] s = some s
after_prefix (String.◌∷◌ c p) String.[] = none
after_prefix (String.◌∷◌ c p) (String.◌∷◌ d s) =
    let rest = after_prefix p s in if code c == code d then rest else none

-- The length, by characters.
abbrev pub string_length : String → ℕ
string_length String.[] = 0
string_length (String.◌∷◌ c s) = suc (string_length s)

abbrev pub append : String → String → String
append String.[] t = t
append (String.◌∷◌ c s) t = String.◌∷◌ c (append s t)

pub string_length-append :
    (s t : String) → string_length (append s t) ≡ string_length s + string_length t
string_length-append String.[] t = omega arith
string_length-append (String.◌∷◌ c s) t = omega (arith, string_length-append s t)

pub cons_filled : (c : Char) (s : String) → str_eq (String.◌∷◌ c s) "" ≡ false
cons_filled c s = elim (Bool-cases (str_eq (String.◌∷◌ c s) "")) [
  | inl e ↦ absurd (omega (arith, ap string_length ((eq_iff (String.◌∷◌ c s) "").0 e)))
  | inr e ↦ e
]
