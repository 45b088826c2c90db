-- ===== src/Common/Lists.antt =====
-- Lists measured by native numbers, and predicates on their elements.
use Prim.Native.Nat.{ℕ, zero, suc, ◌+◌, ◌≤◌}
use mathlib.Core.Path.{◌≡◌}
use mathlib.Core.List.{List, [], ◌∷◌, ◌++◌, map}
use mathlib.Core.Logic.{◌⊎◌}
use native.Mathlib.Omega.{arith}

module _ {ℓ} {A : Type ℓ} where
  abbrev pub length : List A → ℕ
  length [] = 0
  length (x ∷ xs) = suc (length xs)

  abbrev pub take : ℕ → List A → List A
  take zero xs = []
  take (suc n) [] = []
  take (suc n) (x ∷ xs) = x ∷ take n xs

  pub length-append : (xs ys : List A) → length (xs ++ ys) ≡ length xs + length ys
  length-append [] ys = omega arith
  length-append (x ∷ xs) ys = omega (arith, length-append xs ys)

  pub length-take-le : (n : ℕ) (xs : List A) → length (take n xs) ≤ n
  length-take-le zero xs = omega arith
  length-take-le (suc n) [] = omega arith
  length-take-le (suc n) (x ∷ xs) = omega (arith, length-take-le n xs)

-- One of the elements.
abbrev pub Some {ℓ} : {A : Type ℓ} → (A → Type 0) → List A → Type 0
Some P [] = ⊥
Some P (x ∷ xs) = P x ⊎ Some P xs

module _ {ℓ κ} {A : Type ℓ} where
  abbrev pub All : (A → Type κ) → List A → Type κ
  All P [] = Unit
  All P (x ∷ xs) = P x × All P xs

  pub All-append : (P : A → Type κ) (xs ys : List A) → All P xs → All P ys → All P (xs ++ ys)
  All-append P [] ys h k = k
  All-append P (x ∷ xs) ys (p, h) k = (p, All-append P xs ys h k)

  pub All-take : (P : A → Type κ) (n : ℕ) (xs : List A) → All P xs → All P (take n xs)
  All-take P zero xs h = tt
  All-take P (suc n) [] h = tt
  All-take P (suc n) (x ∷ xs) (p, h) = (p, All-take P n xs h)

  pub All-map : (P Q : A → Type κ) (xs : List A) → ((x : A) → P x → Q x) → All P xs → All Q xs
  All-map P Q [] f h = tt
  All-map P Q (x ∷ xs) f (p, h) = (f x p, All-map P Q xs f h)

module _ {ℓ κ} {A : Type ℓ} {B : Type κ} where
  pub All-of_map :
      (P : B → Type 0) (f : A → B) (xs : List A) → All (λ x. P (f x)) xs → All P (map f xs)
  All-of_map P f [] h = tt
  All-of_map P f (x ∷ xs) (p, h) = (p, All-of_map P f xs h)

  pub All-swap :
      (R : A → B → Type 0) (xs : List A) (ys : List B)
      → All (λ x. All (R x) ys) xs
      → All (λ y. All (λ x. R x y) xs) ys
  All-swap R xs [] h = tt
  All-swap R xs (y ∷ ys) h = (
    All-map (λ x. R x y × All (R x) ys) (λ x. R x y) xs (λ x k. k.0) h,
    All-swap R xs ys (All-map (λ x. R x y × All (R x) ys) (λ x. All (R x) ys) xs (λ x k. k.1) h),
  )

module _ {ℓ} {A : Type ℓ} where
  -- Two lists of one length, related element by element.
  abbrev pub Pointwise : (A → A → Type 0) → List A → List A → Type 0
  Pointwise R [] [] = Unit
  Pointwise R [] (_ ∷ _) = ⊥
  Pointwise R (_ ∷ _) [] = ⊥
  Pointwise R (x ∷ xs) (y ∷ ys) = R x y × Pointwise R xs ys

  pub Pointwise-refl : (R : A → A → Type 0) (xs : List A) → ((x : A) → R x x) → Pointwise R xs xs
  Pointwise-refl R [] r = tt
  Pointwise-refl R (x ∷ xs) r = (r x, Pointwise-refl R xs r)

  pub Pointwise-trans :
      (R : A → A → Type 0) (xs ys zs : List A)
      → ((x y z : A) → R x y → R y z → R x z)
      → Pointwise R xs ys
      → Pointwise R ys zs
      → Pointwise R xs zs
  Pointwise-trans R [] [] zs t h k = k
  Pointwise-trans R [] (y ∷ ys) zs t h k = absurd h
  Pointwise-trans R (x ∷ xs) [] zs t h k = absurd h
  Pointwise-trans R (x ∷ xs) (y ∷ ys) [] t h k = absurd k
  Pointwise-trans R (x ∷ xs) (y ∷ ys) (z ∷ zs) t (p, h) (q, k) =
      (t x y z p q, Pointwise-trans R xs ys zs t h k)

  pub Pointwise-map_with :
      (P : A → Type 0) (R S : A → A → Type 0) (xs ys : List A)
      → ((x y : A) → P x → R x y → S x y)
      → All P xs
      → Pointwise R xs ys
      → Pointwise S xs ys
  Pointwise-map_with P R S [] [] f a h = tt
  Pointwise-map_with P R S [] (y ∷ ys) f a h = absurd h
  Pointwise-map_with P R S (x ∷ xs) [] f a h = absurd h
  Pointwise-map_with P R S (x ∷ xs) (y ∷ ys) f (p, a) (r, h) =
      (f x y p r, Pointwise-map_with P R S xs ys f a h)

  pub Pointwise-map :
      (R S : A → A → Type 0) (xs ys : List A)
      → ((x y : A) → R x y → S x y)
      → Pointwise R xs ys
      → Pointwise S xs ys
  Pointwise-map R S [] [] f h = tt
  Pointwise-map R S [] (y ∷ ys) f h = absurd h
  Pointwise-map R S (x ∷ xs) [] f h = absurd h
  Pointwise-map R S (x ∷ xs) (y ∷ ys) f (r, h) = (f x y r, Pointwise-map R S xs ys f h)
