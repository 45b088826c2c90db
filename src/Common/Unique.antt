-- ===== src/Common/Unique.antt =====
-- Tables whose rows have distinct keys, and what a key's uniqueness gives.
use mathlib.Core.Path.{◌≡◌, refl, ◌∙◌, subst}
use mathlib.Core.Logic.{◌⊎◌, inl, inr}
use mathlib.Core.Bool.{Bool, true, false}
use mathlib.Core.Option.{some}
use mathlib.Core.List.{List, [], ◌∷◌, ◌++◌}
use planisfy.Common.Tests.{if◌then◌else◌, Bool-cases}
use planisfy.Common.Lists.{All, All-map}
use planisfy.Common.Table.{update_where, select_where, find_where, any_where}

module _ {ℓ} {A : Type ℓ} where
  -- No row has the key of an earlier one.
  abbrev pub Unique : (A → A → Bool) → List A → Type 0
  Unique same [] = Unit
  Unique same (x ∷ xs) = All (λ y. same x y ≡ false) xs × Unique same xs

  pub any_where-All :
      (p : A → Bool) (xs : List A) → any_where p xs ≡ false → All (λ x. p x ≡ false) xs
  unfolding any_where
  any_where-All p [] h = tt
  any_where-All p (x ∷ xs) h = elim (Bool-cases (p x)) [
    | inl e ↦ cc (rw e at h)
    | inr e ↦ (e, any_where-All p xs (rw e at h))
  ]

  pub any_where-append_self :
      (p : A → Bool) (xs : List A) (x : A) → p x ≡ true → any_where p (xs ++ x ∷ []) ≡ true
  unfolding any_where
  any_where-append_self p [] x h = rw h
  any_where-append_self p (y ∷ xs) x h = elim (Bool-cases (p y)) [
    | inl e ↦ rw e
    | inr e ↦ rw e (any_where-append_self p xs x h)
  ]

  pub find_where-append_self :
      (p : A → Bool) (xs : List A) (x : A)
      → any_where p xs ≡ false
      → p x ≡ true
      → find_where p (xs ++ x ∷ []) ≡ some x
  unfolding any_where find_where
  find_where-append_self p [] x h e = rw e
  find_where-append_self p (y ∷ xs) x h e = elim (Bool-cases (p y)) [
    | inl t ↦ cc (rw t at h)
    | inr f ↦ rw f (find_where-append_self p xs x (rw f at h) e)
  ]

  -- An update that keeps what `p` reads.
  module _ (p q : A → Bool) (f : A → A) (keep : (x : A) → p (f x) ≡ p x) where
    pub any_where-update_where : (xs : List A) → any_where p (update_where q f xs) ≡ any_where p xs
    unfolding any_where update_where
    any_where-update_where [] = refl
    any_where-update_where (x ∷ xs) = elim (Bool-cases (q x)) [
      | inl e ↦ rw (e, keep x, any_where-update_where xs)
      | inr e ↦ rw (e, any_where-update_where xs)
    ]

    pub find_where-update_where :
        (xs : List A) (x : A)
        → find_where p xs ≡ some x
        → find_where p (update_where q f xs) ≡ some (if q x then f x else x)
    unfolding find_where update_where
    find_where-update_where [] x h = cc
    find_where-update_where (y ∷ xs) x h = elim (Bool-cases (p y)) [
      | inl e ↦
          let same : y ≡ x = cc (rw e at h) in
          subst (λ z. find_where p (update_where q f (y ∷ xs)) ≡ some (if q z then f z else z)) same
            (elim (Bool-cases (q y)) [ inl t ↦ rw (t, keep y, e) | inr t ↦ rw (t, e) ])
      | inr e ↦
          let rest = find_where-update_where xs x (rw e at h) in
          elim (Bool-cases (q y)) [ inl t ↦ rw (t, keep y, e) rest | inr t ↦ rw (t, e) rest ]
    ]

  pub Unique-concat :
      (same : A → A → Bool) (xs : List A) (x : A)
      → Unique same xs
      → All (λ y. same y x ≡ false) xs
      → Unique same (xs ++ x ∷ [])
  Unique-concat same [] x u h = (tt, tt)
  Unique-concat same (y ∷ xs) x (a, u) (e, h) = (All-concat xs a e, Unique-concat same xs x u h)
    where
      All-concat :
          (ys : List A)
          → All (λ z. same y z ≡ false) ys
          → same y x ≡ false
          → All (λ z. same y z ≡ false) (ys ++ x ∷ [])
      All-concat [] b e = (e, tt)
      All-concat (z ∷ ys) (d, b) e = (d, All-concat ys b e)

  module _ (same : A → A → Bool) (q : A → Bool) (f : A → A)
      (left : (x y : A) → same (f x) y ≡ same x y)
      (right : (x y : A) → same x (f y) ≡ same x y) where
    away_update :
        (x : A) (xs : List A)
        → All (λ y. same x y ≡ false) xs
        → All (λ y. same x y ≡ false) (update_where q f xs)
    unfolding update_where
    away_update x [] h = tt
    away_update x (y ∷ xs) (e, h) = elim (Bool-cases (q y)) [
      | inl t ↦ rw t (right x y ∙ e, away_update x xs h)
      | inr t ↦ rw t (e, away_update x xs h)
    ]

    pub Unique-update_where : (xs : List A) → Unique same xs → Unique same (update_where q f xs)
    unfolding update_where
    Unique-update_where [] u = tt
    Unique-update_where (x ∷ xs) (a, u) = elim (Bool-cases (q x)) [
      | inl t ↦ rw t (
        All-map (λ y. same x y ≡ false) (λ y. same (f x) y ≡ false) (update_where q f xs)
            (λ y e. left x y ∙ e) (away_update x xs a),
        Unique-update_where xs u,
      )
      | inr t ↦ rw t (away_update x xs a, Unique-update_where xs u)
    ]

module _ {A : Type 0} where
  -- The row that a key's query finds is the only one with the key.
  pub find_where-Unique :
      (same : A → A → Bool) (p : A → Bool)
      → ((x y : A) → p x ≡ true → p y ≡ true → same x y ≡ true)
      → (xs : List A) (x : A) → Unique same xs
      → find_where p xs ≡ some x
      → All (λ y. (p y ≡ false) ⊎ (y ≡ x)) xs
  unfolding find_where
  find_where-Unique same p both [] x u h = tt
  find_where-Unique same p both (y ∷ xs) x (a, u) h = elim (Bool-cases (p y)) [
    | inl e ↦
        let found : y ≡ x = cc (rw e at h) in
        (
          inr found,
          All-map (λ z. same y z ≡ false) (λ z. (p z ≡ false) ⊎ (z ≡ x)) xs
              (λ z d. elim (Bool-cases (p z)) [ inl t ↦ cc (both y z e t) | inr t ↦ inl t ]) a,
        )
    | inr e ↦ (inl e, find_where-Unique same p both xs x u (rw e at h))
  ]

  -- A row that shares its key with a selected row meets the condition of the selection.
  pub select_where-Unique :
      (same : A → A → Bool) (p : A → Bool) (Q : A → Type 0)
      → ((x : A) → p x ≡ true → Q x)
      → ((x y : A) → same x y ≡ same y x)
      → (xs : List A) → Unique same xs
      → All (λ c. All (λ e. (same e c ≡ false) ⊎ Q e) xs) (select_where p xs)
  unfolding select_where
  select_where-Unique same p Q holds symm [] u = tt
  select_where-Unique same p Q holds symm (x ∷ xs) (a, u) = elim (Bool-cases (p x)) [
    | inl e ↦ rw e (
      (
        inr (holds x e),
        All-map (λ y. same x y ≡ false) (λ y. (same y x ≡ false) ⊎ Q y) xs
            (λ y d. inl (symm y x ∙ d)) a,
      ),
      All-map (λ c. All (λ y. (same y c ≡ false) ⊎ Q y) xs)
          (λ c. All (λ y. (same y c ≡ false) ⊎ Q y) (x ∷ xs)) (select_where p xs)
          (λ c h. (inr (holds x e), h)) (select_where-Unique same p Q holds symm xs u),
    )
    | inr e ↦ rw e (
        add_head (select_where p xs) (select_where-away xs a)
          (select_where-Unique same p Q holds symm xs u))
  ]
    where
      select_where-away :
          (ys : List A)
          → All (λ y. same x y ≡ false) ys
          → All (λ y. same x y ≡ false) (select_where p ys)
      select_where-away [] h = tt
      select_where-away (y ∷ ys) (d, h) = elim (Bool-cases (p y)) [
        | inl t ↦ rw t (d, select_where-away ys h)
        | inr t ↦ rw t (select_where-away ys h)
      ]

      add_head :
          (ys : List A)
          → All (λ c. same x c ≡ false) ys
          → All (λ c. All (λ y. (same y c ≡ false) ⊎ Q y) xs) ys
          → All (λ c. All (λ y. (same y c ≡ false) ⊎ Q y) (x ∷ xs)) ys
      add_head [] h k = tt
      add_head (y ∷ ys) (d, h) (b, k) = ((inl d, b), add_head ys h k)
