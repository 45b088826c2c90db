-- ===== src/Common/Blank.antt =====
-- Texts of white space only, and what trimming them leaves.
use Prim.Native.Char.{Char}
use Prim.Native.String.{String}
use mathlib.Core.Path.{◌≡◌, refl, ap}
use mathlib.Core.Logic.{inl, inr, ◌↔◌}
use mathlib.Core.Bool.{true}
use text.Mathlib.Text.{◌==◌ as str_eq}
use text.Mathlib.TextEquality.{eq_iff}
use planisfy.Common.Tests.{Bool-cases}
use planisfy.Common.Text.{is_space, trim_start, trim_end, trim}

abbrev pub IsBlank : String → Type 0
IsBlank String.[] = Unit
IsBlank (String.◌∷◌ c s) = (is_space c ≡ true) × IsBlank s

trim_start-IsBlank : (s : String) → IsBlank (trim_start s) → IsBlank s
unfolding trim_start
trim_start-IsBlank String.[] h = tt
trim_start-IsBlank (String.◌∷◌ c s) h = elim (Bool-cases (is_space c)) [
  | inl e ↦ (e, trim_start-IsBlank s (rw e at h))
  | inr e ↦ rw e at h
]

trim_start-empty : (s : String) → IsBlank s → trim_start s ≡ ""
unfolding trim_start
trim_start-empty String.[] h = refl
trim_start-empty (String.◌∷◌ c s) (e, h) = rw e (trim_start-empty s h)

str_eq-cons : (c : Char) (s : String) → str_eq (String.◌∷◌ c s) "" ≡ true → ⊥
str_eq-cons c s h = let e : String.◌∷◌ c s ≡ "" = (eq_iff (String.◌∷◌ c s) "").0 h in cc

trim_end-IsBlank : (s : String) → str_eq (trim_end s) "" ≡ true → IsBlank s
unfolding trim_end
trim_end-IsBlank String.[] h = tt
trim_end-IsBlank (String.◌∷◌ c s) h = elim (Bool-cases (str_eq (trim_end s) "")) [
  | inl e ↦ elim (Bool-cases (is_space c)) [
    | inl d ↦ (d, trim_end-IsBlank s e)
    | inr d ↦ absurd (str_eq-cons c (trim_end s) (rw (e, d) at h))
  ]
  | inr e ↦ absurd (str_eq-cons c (trim_end s) (rw e at h))
]

-- Trimming leaves nothing exactly of white space.
pub trim-empty_iff : (s : String) → (str_eq (trim s) "" ≡ true) ↔ IsBlank s
unfolding trim_end
trim-empty_iff s = (
  λ h. trim_start-IsBlank s (trim_end-IsBlank (trim_start s) h),
  λ h. ap (λ x. str_eq (trim_end x) "") (trim_start-empty s h),
)
