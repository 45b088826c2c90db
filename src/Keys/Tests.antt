-- ===== src/Keys/Tests.antt =====
-- Prices, scopes and policies at concrete inputs.
use planisfy.Common.{String, Option, none, some, List, [], ◌∷◌, ◌≡◌, refl, ◌↔◌}
use planisfy.Common.Text.{trim_start, trim_end}
use planisfy.Common.Json.{Json, null, str, array, object, nil, cons, end, field, get_field}
use planisfy.Keys.{
  after, api_key_scope, inherited, get_endpoint_category, required_scope_for_path,
  get_post_endpoint_cost,
}
use planisfy.Keys.Policy.{
  Decision, allowed, domain_not_allowed, scope_denied, evaluate_api_key_policy,
  permissions_to_scopes, metadata_allowed_domains, host_from_origin, normalize_allowed_domain,
}
use planisfy.Keys.Policy.Scopes.{IsOpen}
use planisfy.Keys.Policy.Names.{Names}
use planisfy.Keys.Policy.Permits.{OriginPermitted, evaluate_api_key_policy_iff}

abbrev three : Json
three = array (cons null (cons null (cons null nil)))

abbrev matrix : Json
matrix = object (field "sources" three (field "targets" three end))

key_tests :
    (get_endpoint_category "/tiles/v1/source/0/0/0.pbf" ≡ "tiles")
    × (get_endpoint_category "/v4/base/tilequery/1,2.json" ≡ "tilequery")
    × (get_endpoint_category "/Tiles/v1" ≡ "unknown")
    × (get_endpoint_category "/optimized-trips/v1" ≡ "optimized-trips")
    × (required_scope_for_path "/fonts/v1/a" ≡ some (api_key_scope "tiles:read"))
    × (required_scope_for_path "/v1" ≡ none)
    × (required_scope_for_path "/constructor/v1" ≡ some inherited)
    × (get_post_endpoint_cost "/matrix/v1/driving" matrix ≡ some 11)
    × (get_post_endpoint_cost "/geocoding/v1/batch" (object (field "queries" three end)) ≡ some 15)
unfolding get_endpoint_category required_scope_for_path get_post_endpoint_cost get_field
key_tests = (refl, refl, refl, refl, refl, refl, refl, refl, refl)

-- URLs of the form https://host, texts in lower case, and JSON that never parses.
abbrev no_json : String → Option Json
no_json s = none

abbrev https_hostname : String → Option String
https_hostname s = after "https://" s

abbrev lower : String → String
lower s = s

abbrev metadata : Json
metadata = object (field "allowedDomains" (array (cons (str "*.example.com") nil)) end)

abbrev permissions : Json
permissions = object (field "scopes" (array (cons null (cons (str "tiles:read") nil))) end)

abbrev decide : String → Option String → Decision
decide path origin =
    evaluate_api_key_policy no_json https_hostname lower permissions metadata path origin

policy_tests :
    (decide "/tiles/v1/a" (some "https://app.example.com") ≡ allowed ("tiles:read" ∷ []))
    × (decide "/tiles/v1/a" (some " example.com. ") ≡ allowed ("tiles:read" ∷ []))
    × (decide "/tiles/v1/a" (some "https://evilexample.com") ≡ domain_not_allowed)
    × (decide "/tiles/v1/a" none ≡ domain_not_allowed)
    × (decide "/static/v1/a" (some "https://example.com") ≡ scope_denied)
    × (decide "/constructor/v1" (some "https://example.com") ≡ scope_denied)
unfolding evaluate_api_key_policy permissions_to_scopes metadata_allowed_domains host_from_origin
    normalize_allowed_domain trim_start trim_end required_scope_for_path get_endpoint_category
    get_field
policy_tests = (refl, refl, refl, refl, refl, refl)

evaluate_api_key_policy_iff_example :
    (evaluate_api_key_policy no_json https_hostname lower permissions metadata "/tiles/v1/a"
        (some "https://app.example.com")
      ≡ allowed ("tiles:read" ∷ []))
    ↔ (((domains : List String) × Names "allowedDomains" metadata domains
          × OriginPermitted no_json https_hostname lower (some "https://app.example.com") domains)
        × Names "scopes" permissions ("tiles:read" ∷ [])
        × IsOpen (get_endpoint_category "/tiles/v1/a") ("tiles:read" ∷ []))
evaluate_api_key_policy_iff_example =
    evaluate_api_key_policy_iff no_json https_hostname lower permissions metadata "/tiles/v1/a"
      (some "https://app.example.com") ("tiles:read" ∷ [])
