-- ===== src/Keys/Costs.antt =====
-- What a request may cost: apps/api/src/domains/keys/api-key.ts.
use text.Mathlib.Text.{◌==◌ as str_eq}
use text.Mathlib.TextEquality.{eq_iff}
use planisfy.Common.{
  ℕ, ◌+◌, ◌-◌, ◌*◌, ◌/◌, ◌≤◌, min, max, String, false, Option, none, some, List, [], ◌∷◌, ◌≡◌, sym,
  subst, inl, inr, arith, or_else, Bool-cases, All,
}
use planisfy.Common.Json.{own_property, Json, object, Fields, get_field}
use planisfy.Keys.{
  endpoint_costs, base_cost, length_of, geocoding_cost, directions_cost, matching_cost, matrix_cost,
  trips_cost, bounded_array_length, post_cost, post_endpoint_cost,
}

-- The bounds that every price keeps.
abbrev Within : ℕ → ℕ → Type 0
Within base cost = (1 ≤ base) × (base ≤ cost) × (cost ≤ 250)

own_property-All :
    (P : ℕ → Type 0) (k : String) (xs : List (String × ℕ))
    → P 1
    → All (λ x. P x.1) xs
    → P (or_else (own_property k xs) 1)
own_property-All P k [] d h = d
own_property-All P k ((j, a) ∷ xs) d (p, h) = elim (Bool-cases (str_eq k j)) [
  | inl e ↦ rw e p
  | inr e ↦ rw e (own_property-All P k xs d h)
]

base_cost-bounds : (category : String) → (1 ≤ base_cost category) × (base_cost category ≤ 20)
base_cost-bounds category =
    own_property-All (λ n. (1 ≤ n) × (n ≤ 20)) category endpoint_costs (omega arith, omega arith)
      (
        (omega arith, omega arith),
        (
          (omega arith, omega arith),
          (
            (omega arith, omega arith),
            (
              (omega arith, omega arith),
              (
                (omega arith, omega arith),
                (
                  (omega arith, omega arith),
                  (
                    (omega arith, omega arith),
                    (
                      (omega arith, omega arith),
                      (
                        (omega arith, omega arith),
                        (
                          (omega arith, omega arith),
                          ((omega arith, omega arith), ((omega arith, omega arith), tt)),
                        ),
                      ),
                    ),
                  ),
                ),
              ),
            ),
          ),
        ),
      )

geocoding_cost-Within : (n : Option ℕ) → Within 5 (geocoding_cost 5 n)
geocoding_cost-Within none = (omega arith, omega arith, omega arith)
geocoding_cost-Within (some n) = (omega arith, omega arith, omega arith)

module _ (base : ℕ) (low : 1 ≤ base) (high : base ≤ 20) where
  base-Within : Within base base
  base-Within = (low, omega arith, omega arith)

  directions_cost-Within : (n : Option ℕ) → Within base (directions_cost base n)
  directions_cost-Within none = base-Within
  directions_cost-Within (some n) = (low, omega arith, omega arith)

  matching_cost-Within : (n : Option ℕ) → Within base (matching_cost base n)
  matching_cost-Within none = base-Within
  matching_cost-Within (some n) = (low, omega arith, omega arith)

  added-Within : (n : ℕ) → n ≤ 10 → Within base (base + n)
  added-Within n h = (low, omega arith, omega arith)

  cells_bound : (cells : ℕ) → (max 0 (min cells 100 - 4) + 9) / 10 ≤ 10
  cells_bound cells = omega arith

  matrix_cost-Within : (m n : Option ℕ) → Within base (matrix_cost base m n)
  matrix_cost-Within none n = base-Within
  matrix_cost-Within (some m) none = base-Within
  matrix_cost-Within (some m) (some n) =
      added-Within _ (cells_bound (bounded_array_length m 25 * bounded_array_length n 25))

  trips_cost-Within : (n : Option ℕ) → Within base (trips_cost base n)
  trips_cost-Within none = base-Within
  trips_cost-Within (some n) = (low, omega arith, omega arith)

  -- Every price but that of geocoding, which is multiplied.
  other_cost-Within :
      (category : String) (body : Fields)
      → str_eq category "geocoding" ≡ false
      → Within base (post_cost category base body)
  unfolding post_cost
  other_cost-Within category body a = elim (Bool-cases (str_eq category "directions")) [
    | inl e ↦ rw (a, e) (directions_cost-Within _)
    | inr b ↦ elim (Bool-cases (str_eq category "matching")) [
      | inl e ↦ rw (a, b, e) (matching_cost-Within _)
      | inr c ↦ elim (Bool-cases (str_eq category "matrix")) [
        | inl e ↦ rw (a, b, c, e) (matrix_cost-Within _ _)
        | inr d ↦ elim (Bool-cases (str_eq category "optimized-trips")) [
          | inl e ↦ rw (a, b, c, d, e) (trips_cost-Within _)
          | inr f ↦ rw (a, b, c, d, f) base-Within
        ]
      ]
    ]
  ]

post_cost-Within :
    (category : String) (body : Fields)
    → Within (base_cost category) (post_cost category (base_cost category) body)
unfolding post_cost
post_cost-Within category body =
    let (low, high) = base_cost-bounds category in
    elim (Bool-cases (str_eq category "geocoding")) [
      | inl e ↦
          let same : category ≡ "geocoding" = (eq_iff category "geocoding").0 e in
          subst (λ x. Within (base_cost x) (post_cost x (base_cost x) body)) (sym same)
            (geocoding_cost-Within (length_of (get_field "queries" body)))
      | inr a ↦ other_cost-Within (base_cost category) low high category body a
    ]

-- A posted request never costs less than the base price of its category, which is at least 1, and
-- never more than 250 units, whatever its category and however long its arrays are.
pub post_endpoint_cost-bounds :
    (category : String) (body : Json)
    → (1 ≤ base_cost category)
      × (base_cost category ≤ post_endpoint_cost category body)
      × (post_endpoint_cost category body ≤ 250)
post_endpoint_cost-bounds category body =
    let (low, high) = base_cost-bounds category in
    elim body as (λ b. Within (base_cost category) (post_endpoint_cost category b)) [
      | object fields ↦ post_cost-Within category fields
      | _ ↦ base-Within (base_cost category) low high
    ]
