-- ===== src/Common/Table.antt =====
-- A database table as the list of its rows, and the statements that the code runs on it.
-- Where a query leaves the order open, the rows come in the order of the table.
use Prim.Native.Nat.{ℕ}
use mathlib.Core.Path.{◌≡◌, refl, subst}
use mathlib.Core.Logic.{inl, inr}
use mathlib.Core.Bool.{Bool, true, false, not}
use mathlib.Core.Option.{Option, none, some}
use mathlib.Core.List.{List, [], ◌∷◌}
use native.Mathlib.Omega.{arith}
use planisfy.Common.Tests.{if◌then◌else◌, leb, Bool-cases}
use planisfy.Common.Lists.{All, Pointwise}

module _ {ℓ} {A : Type ℓ} where
  -- `update … set f where p`
  unfoldable pub update_where : (A → Bool) → (A → A) → List A → List A
  update_where p f [] = []
  update_where p f (x ∷ xs) = (if p x then f x else x) ∷ update_where p f xs

  -- `select … where p`; `returning` gives the same rows of an update, before it
  unfoldable pub select_where : (A → Bool) → List A → List A
  select_where p [] = []
  select_where p (x ∷ xs) = let rest = select_where p xs in if p x then x ∷ rest else rest

  -- `delete … where p`
  unfoldable pub delete_where : (A → Bool) → List A → List A
  delete_where p [] = []
  delete_where p (x ∷ xs) = let rest = delete_where p xs in if p x then rest else x ∷ rest

  -- `select … where p limit 1`
  unfoldable pub find_where : (A → Bool) → List A → Option A
  find_where p [] = none
  find_where p (x ∷ xs) = let rest = find_where p xs in if p x then some x else rest

  -- Whether a statement with this condition touches a row.
  unfoldable pub any_where : (A → Bool) → List A → Bool
  any_where p [] = false
  any_where p (x ∷ xs) = let rest = any_where p xs in if p x then true else rest

  insert_by : (A → ℕ) → A → List A → List A
  insert_by key x [] = x ∷ []
  insert_by key x (y ∷ ys) =
      let rest = insert_by key x ys in if leb (key x) (key y) then x ∷ y ∷ ys else y ∷ rest

  -- `order by key`
  unfoldable pub order_by : (A → ℕ) → List A → List A
  unfolding insert_by
  order_by key [] = []
  order_by key (x ∷ xs) = insert_by key x (order_by key xs)

module _ {ℓ} {A : Type ℓ} where
  pub update_where-Pointwise :
      (R : A → A → Type 0) (p : A → Bool) (f : A → A) (xs : List A)
      → ((x : A) → p x ≡ true → R x (f x))
      → ((x : A) → R x x)
      → Pointwise R xs (update_where p f xs)
  unfolding update_where
  update_where-Pointwise R p f [] h r = tt
  update_where-Pointwise R p f (x ∷ xs) h r = elim (Bool-cases (p x)) [
    | inl e ↦ rw e (h x e, update_where-Pointwise R p f xs h r)
    | inr e ↦ rw e (r x, update_where-Pointwise R p f xs h r)
  ]

  -- What the rows of a table become under an update, by the two cases of its condition.
  pub update_where-All :
      (P Q : A → Type 0) (p : A → Bool) (f : A → A) (xs : List A)
      → ((x : A) → P x → p x ≡ true → Q (f x))
      → ((x : A) → P x → p x ≡ false → Q x)
      → All P xs
      → All Q (update_where p f xs)
  unfolding update_where
  update_where-All P Q p f [] h k a = tt
  update_where-All P Q p f (x ∷ xs) h k (a, as_) = elim (Bool-cases (p x)) [
    | inl e ↦ rw e (h x a e, update_where-All P Q p f xs h k as_)
    | inr e ↦ rw e (k x a e, update_where-All P Q p f xs h k as_)
  ]

  -- What an update makes of every row, whatever the rows were.
  pub update_where-makes :
      (Q : A → Type 0) (p : A → Bool) (f : A → A) (xs : List A)
      → ((x : A) → p x ≡ true → Q (f x))
      → ((x : A) → p x ≡ false → Q x)
      → All Q (update_where p f xs)
  unfolding update_where
  update_where-makes Q p f [] h k = tt
  update_where-makes Q p f (x ∷ xs) h k = elim (Bool-cases (p x)) [
    | inl e ↦ rw e (h x e, update_where-makes Q p f xs h k)
    | inr e ↦ rw e (k x e, update_where-makes Q p f xs h k)
  ]

  -- A deletion keeps the rows that its condition does not name.
  pub select_where-delete_where :
      (p : A → Bool) (xs : List A)
      → select_where (λ x. not (p x)) (delete_where p xs) ≡ select_where (λ x. not (p x)) xs
  unfolding select_where delete_where
  select_where-delete_where p [] = refl
  select_where-delete_where p (x ∷ xs) = elim (Bool-cases (p x)) [
    | inl e ↦ rw (e, select_where-delete_where p xs)
    | inr e ↦ rw (e, e, select_where-delete_where p xs)
  ]

  -- An update whose condition holds of no row changes nothing.
  pub update_where-id :
      (p : A → Bool) (f : A → A) (xs : List A) → any_where p xs ≡ false → update_where p f xs ≡ xs
  unfolding update_where any_where
  update_where-id p f [] h = refl
  update_where-id p f (x ∷ xs) h = ground (arith, update_where-id p f xs)

  pub select_where-All :
      (P : A → Type 0) (p : A → Bool) (xs : List A)
      → ((x : A) → p x ≡ true → P x)
      → All P (select_where p xs)
  unfolding select_where
  select_where-All P p [] h = tt
  select_where-All P p (x ∷ xs) h = elim (Bool-cases (p x)) [
    | inl e ↦ rw e (h x e, select_where-All P p xs h)
    | inr e ↦ rw e (select_where-All P p xs h)
  ]

  -- The same, from what holds of every row.
  pub select_where-All_of :
      (P Q : A → Type 0) (p : A → Bool) (xs : List A)
      → ((x : A) → P x → p x ≡ true → Q x)
      → All P xs
      → All Q (select_where p xs)
  unfolding select_where
  select_where-All_of P Q p [] h a = tt
  select_where-All_of P Q p (x ∷ xs) h (b, a) = elim (Bool-cases (p x)) [
    | inl e ↦ rw e (h x b e, select_where-All_of P Q p xs h a)
    | inr e ↦ rw e (select_where-All_of P Q p xs h a)
  ]

  pub delete_where-All :
      (P : A → Type 0) (p : A → Bool) (xs : List A)
      → ((x : A) → p x ≡ false → P x)
      → All P (delete_where p xs)
  unfolding delete_where
  delete_where-All P p [] h = tt
  delete_where-All P p (x ∷ xs) h = elim (Bool-cases (p x)) [
    | inl e ↦ rw e (delete_where-All P p xs h)
    | inr e ↦ rw e (h x e, delete_where-All P p xs h)
  ]

  pub find_where-holds :
      (p : A → Bool) (xs : List A) (x : A) → find_where p xs ≡ some x → p x ≡ true
  unfolding find_where
  find_where-holds p [] x h = cc
  find_where-holds p (y ∷ ys) x h = elim (Bool-cases (p y)) [
    | inl e ↦ let e' : y ≡ x = cc (rw e at h) in subst (λ z. p z ≡ true) e' e
    | inr e ↦ find_where-holds p ys x (rw e at h)
  ]

  insert_by-All :
      (P : A → Type 0) (key : A → ℕ) (x : A) (xs : List A)
      → P x
      → All P xs
      → All P (insert_by key x xs)
  unfolding insert_by
  insert_by-All P key x [] p a = (p, tt)
  insert_by-All P key x (y ∷ ys) p (q, a) = elim (Bool-cases (leb (key x) (key y))) [
    | inl e ↦ rw e (p, (q, a))
    | inr e ↦ rw e (q, insert_by-All P key x ys p a)
  ]

  pub order_by-All :
      (P : A → Type 0) (key : A → ℕ) (xs : List A) → All P xs → All P (order_by key xs)
  unfolding order_by
  order_by-All P key [] a = tt
  order_by-All P key (x ∷ xs) (p, a) =
      insert_by-All P key x (order_by key xs) p (order_by-All P key xs a)
