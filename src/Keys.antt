-- ===== src/Keys.antt =====
-- The price of a request and the scope that it needs, by its path and body:
-- apps/api/src/domains/keys/api-key.ts. The one inherited property of an object that a path's category
-- can spell is `constructor`, a function: it is no price, and no list of texts includes it.
pub mod Costs
pub mod Policy
mod Tests
use Prim.Native.Char.{Char, code}
use text.Mathlib.Text.{◌==◌ as str_eq}
use planisfy.Common.{
  ℕ, zero, suc, ◌+◌, ◌-◌, ◌*◌, ◌/◌, min, max, String, Bool, true, false, not, ◌&&◌, ◌||◌, Option,
  none, some, List, [], ◌∷◌, if◌then◌else◌, ◌==◌, leb, is_some, or_else,
}
use planisfy.Common.Json.{own_property, Json, array, object, Items, nil, cons, Fields, get_field}

abbrev pub endpoint_costs : List (String × ℕ)
endpoint_costs =
    ("tiles", 1)
    ∷ ("tilequery", 10)
    ∷ ("styles", 1)
    ∷ ("fonts", 1)
    ∷ ("geocoding", 5)
    ∷ ("directions", 10)
    ∷ ("isochrone", 10)
    ∷ ("matching", 5)
    ∷ ("matrix", 10)
    ∷ ("optimized-trips", 15)
    ∷ ("elevation", 5)
    ∷ ("static", 20)
    ∷ []

abbrev pub scope_map : List (String × String)
scope_map =
    ("tiles", "tiles:read")
    ∷ ("tilequery", "tiles:read")
    ∷ ("styles", "styles:read")
    ∷ ("fonts", "tiles:read")
    ∷ ("geocoding", "geocoding")
    ∷ ("directions", "directions")
    ∷ ("isochrone", "directions")
    ∷ ("matching", "directions")
    ∷ ("matrix", "directions")
    ∷ ("optimized-trips", "directions")
    ∷ ("elevation", "elevation")
    ∷ ("static", "static")
    ∷ []

-- What follows a prefix of a text.
abbrev pub after : String → String → Option String
after String.[] s = some s
after (String.◌∷◌ c p) String.[] = none
after (String.◌∷◌ c p) (String.◌∷◌ d s) =
    let rest = after p s in if code c == code d then rest else none

-- The longest beginning of such characters, and the rest.
abbrev pub span : (Char → Bool) → String → String × String
span p String.[] = (String.[], String.[])
span p (String.◌∷◌ c s) =
    let (a, b) = span p s in if p c then (String.◌∷◌ c a, b) else (String.[], String.◌∷◌ c s)

-- `[a-z-]` and `[^/]`
abbrev is_category_char : Char → Bool
is_category_char c = (leb 97 (code c) && leb (code c) 122) || code c == 45

abbrev is_segment_char : Char → Bool
is_segment_char c = not (code c == 47)

-- A segment of such characters, not empty, which the text goes on behind as stated.
abbrev segment : (Char → Bool) → String → Option String → Option String
segment p next none = none
segment p next (some s) =
    let (name, rest) = span p s in
    if not (str_eq name "") && is_some (after next rest) then some name else none

unfoldable pub get_endpoint_category : String → String
get_endpoint_category path =
    if is_some (segment is_segment_char "/tilequery/" (after "/v4/" path))
    then "tilequery"
    else or_else (segment is_category_char "/v1" (after "/" path)) "unknown"

abbrev pub base_cost : String → ℕ
base_cost category = or_else (own_property category endpoint_costs) 1

abbrev pub is_inherited : String → Bool
is_inherited category = str_eq category "constructor"

pub data Needed : Type 0 where
  api_key_scope : String → Needed
  inherited : Needed

abbrev pub as_scope : Option String → Option Needed
as_scope none = none
as_scope (some s) = some (api_key_scope s)

abbrev pub scope_of : String → Option Needed
scope_of category =
    if is_inherited category then some inherited else as_scope (own_property category scope_map)

-- `none` is no scope.
unfoldable pub required_scope_for_path : String → Option Needed
required_scope_for_path path = scope_of (get_endpoint_category path)

-- `Array.isArray(body[key])`, with the array's length
abbrev pub items_length : Items → ℕ
items_length nil = 0
items_length (cons v rest) = suc (items_length rest)

abbrev pub length_of : Option Json → Option ℕ
length_of (some (array items)) = some (items_length items)
length_of _ = none

abbrev pub bounded_array_length : ℕ → ℕ → ℕ
bounded_array_length length maximum = max 1 (min maximum length)

-- `Math.ceil(n / 10)`
abbrev pub ceil_tenth : ℕ → ℕ
ceil_tenth n = (n + 9) / 10

abbrev geocoding_cost : ℕ → Option ℕ → ℕ
geocoding_cost base none = base
geocoding_cost base (some queries) = base * bounded_array_length queries 50

abbrev directions_cost : ℕ → Option ℕ → ℕ
directions_cost base none = base
directions_cost base (some locations) = base + max 0 (bounded_array_length locations 25 - 2)

abbrev matching_cost : ℕ → Option ℕ → ℕ
matching_cost base none = base
matching_cost base (some shape) =
    let points = bounded_array_length shape 100 in base + max 0 (ceil_tenth points - 1)

abbrev matrix_cost : ℕ → Option ℕ → Option ℕ → ℕ
matrix_cost base none targets = base
matrix_cost base (some sources) none = base
matrix_cost base (some sources) (some targets) =
    let cells = bounded_array_length sources 25 * bounded_array_length targets 25 in
    base + ceil_tenth (max 0 (min cells 100 - 4))

abbrev trips_cost : ℕ → Option ℕ → ℕ
trips_cost base none = base
trips_cost base (some locations) =
    let points = bounded_array_length locations 12 in base + max 0 (points - 3) * 2

-- The chain of conditions of `getPostEndpointCost`, for a body that is a record.
unfoldable pub post_cost : String → ℕ → Fields → ℕ
post_cost category base body =
    if str_eq category "geocoding"
    then geocoding_cost base (length_of (get_field "queries" body))
    else if str_eq category "directions"
    then directions_cost base (length_of (get_field "locations" body))
    else if str_eq category "matching"
    then matching_cost base (length_of (get_field "shape" body))
    else if str_eq category "matrix"
    then matrix_cost base (length_of (get_field "sources" body))
        (length_of (get_field "targets" body))
    else if str_eq category "optimized-trips"
    then trips_cost base (length_of (get_field "locations" body))
    else base

abbrev pub post_endpoint_cost : String → Json → ℕ
post_endpoint_cost category (object body) = post_cost category (base_cost category) body
post_endpoint_cost category _ = base_cost category

-- `none` is the inherited function, which is no number.
unfoldable pub get_post_endpoint_cost : String → Json → Option ℕ
unfolding post_cost
get_post_endpoint_cost path body =
    let category = get_endpoint_category path in
    if is_inherited category then none else some (post_endpoint_cost category body)
