-- ===== src/Keys/Policy.antt =====
-- The policy of an API key: its allowed domains and its scopes, `evaluateApiKeyPolicy` of
-- apps/api/src/domains/keys/api-key.ts. `JSON.parse`, `new URL(value).hostname` and
-- `toLowerCase` are arguments.
pub mod Scopes
pub mod Names
pub mod Permits
use Prim.Native.Char.{Char, char, code}
use text.Mathlib.Text.{◌==◌ as str_eq}
use planisfy.Common.{
  ℕ, zero, suc, String, Bool, true, false, not, ◌&&◌, ◌||◌, Option, none, some, List, [], ◌∷◌,
  if◌then◌else◌, ◌==◌, leb, is_some, or_else,
}
use planisfy.Common.Text.{trim, string_length}
use planisfy.Common.Json.{Json, null, str, array, object, Items, nil, cons, get_field}
use planisfy.Keys.{after, Needed, api_key_scope, inherited, required_scope_for_path}

abbrev pub strings : Items → List String
strings nil = []
strings (cons (str s) rest) = s ∷ strings rest
strings (cons _ rest) = strings rest

abbrev pub strings_of : Option Json → List String
strings_of (some (array items)) = strings items
strings_of _ = []

abbrev pub strings_at : String → Json → List String
strings_at key (object fields) = strings_of (get_field key fields)
strings_at key _ = []

-- `replace(/\.$/, '')`
abbrev pub drop_dot : String → String
drop_dot String.[] = String.[]
drop_dot (String.◌∷◌ c s) =
    let rest = drop_dot s in if code c == 46 && str_eq s "" then "" else String.◌∷◌ c rest

abbrev pub ends_with : String → String → Bool
ends_with t String.[] = str_eq String.[] t
ends_with t (String.◌∷◌ c s) =
    let rest = ends_with t s in if str_eq (String.◌∷◌ c s) t then true else rest

abbrev any_char : (Char → Bool) → String → Bool
any_char p String.[] = false
any_char p (String.◌∷◌ c s) = p c || any_char p s

-- `split('.')`: the first label, and those behind it.
abbrev labels : String → String × List String
labels String.[] = (String.[], [])
labels (String.◌∷◌ c s) =
    let (first, rest) = labels s in
    if code c == 46 then (String.[], first ∷ rest) else (String.◌∷◌ c first, rest)

abbrev is_label_char : Char → Bool
is_label_char c =
    (leb 97 (code c) && leb (code c) 122) || ((leb 48 (code c) && leb (code c) 57) || code c == 45)

abbrev is_label : String → Bool
is_label label =
    not (str_eq label "")
    && (leb (string_length label) 63
        && (not (any_char (λ c. not (is_label_char c)) label)
            && (not (is_some (after "-" label)) && not (ends_with "-" label))))

abbrev all_labels : List String → Bool
all_labels [] = true
all_labels (l ∷ ls) = is_label l && all_labels ls

abbrev pub is_valid_hostname : String → Bool
is_valid_hostname host =
    if str_eq host "localhost"
    then true
    else if not (leb (string_length host) 253) || any_char (λ c. code c == 42) host
    then false
    else (let (first, rest) = labels host in is_label first && all_labels rest)

-- What `return isValidHostname(...) ? … : null` gives; the host keeps its `*.`.
abbrev validated : String → Option String → Option String
validated host (some suffix) = if is_valid_hostname suffix then some host else none
validated host none = if is_valid_hostname host then some host else none

abbrev normalized : Option String → Option String
normalized none = none
normalized (some host) = if str_eq host "" then none else validated host (after "*." host)

abbrev pub dot : Char
dot = char 46 tt

abbrev pub pattern_matches : String → String → Option String → Bool
pattern_matches host pattern (some suffix) =
    str_eq host suffix || ends_with (String.◌∷◌ dot suffix) host
pattern_matches host pattern none = str_eq host pattern

abbrev pub some_matches : String → List String → Bool
some_matches host [] = false
some_matches host (pattern ∷ patterns) =
    let rest = some_matches host patterns in
    if pattern_matches host pattern (after "*." pattern) then true else rest

abbrev pub includes : List String → String → Bool
includes [] s = false
includes (t ∷ ts) s = let rest = includes ts s in if str_eq t s then true else rest

pub data Decision : Type 0 where
  allowed : List String → Decision
  domain_not_allowed scope_denied : Decision

module _ (parse_json : String → Option Json) (url_hostname : String → Option String)
    (to_lower_case : String → String) where
  abbrev pub parse_json_value : Json → Json
  parse_json_value (str s) = or_else (parse_json s) null
  parse_json_value v = v

  unfoldable pub permissions_to_scopes : Json → List String
  permissions_to_scopes value = strings_at "scopes" (parse_json_value value)

  unfoldable pub metadata_allowed_domains : Json → List String
  metadata_allowed_domains value = strings_at "allowedDomains" (parse_json_value value)

  abbrev lowered : Option String → Option String
  lowered none = none
  lowered (some host) = some (drop_dot (to_lower_case host))

  abbrev host_from_url : String → Option String
  host_from_url value = lowered (url_hostname value)

  unfoldable pub normalize_allowed_domain : String → Option String
  normalize_allowed_domain value =
      let trimmed = drop_dot (to_lower_case (trim value)) in
      if str_eq trimmed ""
      then none
      else if is_some (after "http://" trimmed) || is_some (after "https://" trimmed)
      then normalized (host_from_url trimmed)
      else normalized (some trimmed)

  abbrev first_host : Option String → Option String → Option String
  first_host (some host) other = some host
  first_host none other = other

  unfoldable pub host_from_origin : Option String → Option String
  unfolding normalize_allowed_domain
  host_from_origin none = none
  host_from_origin (some value) =
      if str_eq value ""
      then none
      else first_host (host_from_url (trim value)) (normalize_allowed_domain value)

  abbrev pub host_allowed : Option String → List String → Bool
  host_allowed none domains = false
  host_allowed (some host) domains = not (str_eq host "") && some_matches host domains

  unfoldable pub is_request_origin_allowed : Option String → List String → Bool
  is_request_origin_allowed origin [] = true
  is_request_origin_allowed origin (domain ∷ domains) =
      host_allowed (host_from_origin origin) (domain ∷ domains)

  abbrev pub scoped : List String → Option Needed → Decision
  scoped scopes none = allowed scopes
  scoped scopes (some inherited) = scope_denied
  scoped scopes (some (api_key_scope required)) =
      if includes scopes required then allowed scopes else scope_denied

  -- With no domains the origin is not asked for.
  unfoldable pub evaluate_api_key_policy :
      (permissions metadata : Json) (path : String) (origin : Option String) → Decision
  unfolding is_request_origin_allowed
  evaluate_api_key_policy permissions metadata path origin =
      if not (is_request_origin_allowed origin (metadata_allowed_domains metadata))
      then domain_not_allowed
      else scoped (permissions_to_scopes permissions) (required_scope_for_path path)
