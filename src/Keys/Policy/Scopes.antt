-- ===== src/Keys/Policy/Scopes.antt =====
-- Which scope of an API key opens which path, described without the code's table:
-- apps/api/src/domains/keys/api-key.ts.
use mathlib.Core.List.{map}
use text.Mathlib.Text.{◌==◌ as str_eq}
use text.Mathlib.TextEquality.{eq_iff}
use planisfy.Common.{
  String, true, false, none, some, List, [], ◌∷◌, ◌≡◌, refl, sym, subst, ◌⊎◌, inl, inr, All,
  Bool-cases,
}
use planisfy.Common.Json.{own_property}
use planisfy.Keys.{api_key_scope, scope_of, scope_map}
use planisfy.Keys.Policy.{includes}

pub data Holds (scope : String) : List String → Type 0 where
  first : (s : String) (ss : List String) → s ≡ scope → Holds scope (s ∷ ss)
  later : (s : String) (ss : List String) → Holds scope ss → Holds scope (s ∷ ss)

pub includes-Holds : (ss : List String) (scope : String) → includes ss scope ≡ true → Holds scope ss
includes-Holds [] scope h = cc
includes-Holds (s ∷ ss) scope h = elim (Bool-cases (str_eq s scope)) [
  | inl e ↦ first s ss ((eq_iff s scope).0 e)
  | inr e ↦ later s ss (includes-Holds ss scope (rw e at h))
]

pub Holds-includes : (scope : String) (ss : List String) → Holds scope ss → includes ss scope ≡ true
Holds-includes scope _ (first s ss e) = rw ((eq_iff s scope).1 e) refl
Holds-includes scope _ (later s ss k) = elim (Bool-cases (str_eq s scope)) [
  | inl e ↦ rw e refl
  | inr e ↦ rw e (Holds-includes scope ss k)
]

-- Which scope opens which category of paths.
pub data Opens : (scope category : String) → Type 0 where
  tiles : Opens "tiles:read" "tiles"
  tilequery : Opens "tiles:read" "tilequery"
  fonts : Opens "tiles:read" "fonts"
  styles : Opens "styles:read" "styles"
  geocoding : Opens "geocoding" "geocoding"
  directions : Opens "directions" "directions"
  isochrone : Opens "directions" "isochrone"
  matching : Opens "directions" "matching"
  matrix : Opens "directions" "matrix"
  optimized_trips : Opens "directions" "optimized-trips"
  elevation : Opens "elevation" "elevation"
  static : Opens "static" "static"

-- The categories that are not open to all: those of `Opens`, and one that no scope opens.
abbrev pub closed_categories : List String
closed_categories =
    "constructor" ∷ "tiles" ∷ "tilequery" ∷ "styles" ∷ "fonts" ∷ "geocoding" ∷ "directions"
    ∷ "isochrone" ∷ "matching" ∷ "matrix" ∷ "optimized-trips" ∷ "elevation" ∷ "static" ∷ []

-- The category is open to all, or one of the scopes opens it.
pub data IsOpen (category : String) (scopes : List String) : Type 0 where
  to_all : All (λ k. str_eq category k ≡ false) closed_categories → IsOpen category scopes
  by_scope : (s : String) → Opens s category → Holds s scopes → IsOpen category scopes

pub Opens-scope_of :
    (s category : String) → Opens s category → scope_of category ≡ some (api_key_scope s)
Opens-scope_of _ _ tiles = refl
Opens-scope_of _ _ tilequery = refl
Opens-scope_of _ _ fonts = refl
Opens-scope_of _ _ styles = refl
Opens-scope_of _ _ geocoding = refl
Opens-scope_of _ _ directions = refl
Opens-scope_of _ _ isochrone = refl
Opens-scope_of _ _ matching = refl
Opens-scope_of _ _ matrix = refl
Opens-scope_of _ _ optimized_trips = refl
Opens-scope_of _ _ elevation = refl
Opens-scope_of _ _ static = refl

pub Opens-closed :
    (s category : String)
    → Opens s category
    → All (λ j. str_eq category j ≡ false) (map (λ x. x.0) scope_map)
    → ⊥
Opens-closed _ _ tiles h = cc
Opens-closed _ _ tilequery h = cc
Opens-closed _ _ fonts h = cc
Opens-closed _ _ styles h = cc
Opens-closed _ _ geocoding h = cc
Opens-closed _ _ directions h = cc
Opens-closed _ _ isochrone h = cc
Opens-closed _ _ matching h = cc
Opens-closed _ _ matrix h = cc
Opens-closed _ _ optimized_trips h = cc
Opens-closed _ _ elevation h = cc
Opens-closed _ _ static h = cc

-- What a lookup gives: the value of a key, or the key is none of them.
pub own_property-cases :
    (P : String → String → Type 0) (k : String) (xs : List (String × String))
    → All (λ x. P x.1 x.0) xs
    → ((s : String) × (own_property k xs ≡ some s) × P s k)
      ⊎ ((own_property k xs ≡ none) × All (λ j. str_eq k j ≡ false) (map (λ x. x.0) xs))
own_property-cases P k [] h = inr (refl, tt)
own_property-cases P k ((j, s) ∷ xs) (p, h) = elim (Bool-cases (str_eq k j)) [
  | inl e ↦ inl (s, rw e refl, subst (P s) (sym ((eq_iff k j).0 e)) p)
  | inr e ↦ elim (own_property-cases P k xs h) [
    | inl (t, q, r) ↦ inl (t, rw e q, r)
    | inr (q, r) ↦ inr (rw e q, (e, r))
  ]
]

pub scope_map-Opens : All (λ x. Opens x.1 x.0) scope_map
scope_map-Opens = (
  tiles,
  (
    tilequery,
    (
      styles,
      (
        fonts,
        (
          geocoding,
          (
            directions,
            (isochrone, (matching, (matrix, (optimized_trips, (elevation, (static, tt)))))),
          ),
        ),
      ),
    ),
  ),
)
