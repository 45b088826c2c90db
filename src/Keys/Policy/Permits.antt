-- ===== src/Keys/Policy/Permits.antt =====
-- What an API key permits, described without the code's tests: `evaluateApiKeyPolicy` of
-- apps/api/src/domains/keys/api-key.ts.
use Prim.Native.Char.{Char}
use text.Mathlib.Text.{◌==◌ as str_eq}
use text.Mathlib.TextEquality.{eq_iff}
use planisfy.Common.{
  String, true, false, Option, none, some, List, [], ◌∷◌, ◌≡◌, refl, sym, ap, ◌∙◌, subst, ◌⊎◌, inl,
  inr, ◌↔◌, Bool-cases, Option-cases,
}
use planisfy.Common.Json.{Json}
use planisfy.Keys.{
  after, required_scope_for_path, scope_of, scope_map, is_inherited, get_endpoint_category,
}
use planisfy.Keys.Policy.Scopes.{
  Opens, IsOpen, to_all, by_scope, includes-Holds, Holds-includes, Opens-scope_of, Opens-closed,
  own_property-cases, scope_map-Opens,
}
use planisfy.Keys.Policy.Names.{Names, strings_at-Names, Names-strings_at}
use planisfy.Keys.Policy.{
  strings_at, parse_json_value, dot, ends_with, pattern_matches, some_matches, includes, allowed,
  scoped, permissions_to_scopes, metadata_allowed_domains, host_from_origin,
  is_request_origin_allowed, evaluate_api_key_policy,
}

pub data IsEnding (t : String) : String → Type 0 where
  whole : IsEnding t t
  behind : (c : Char) (s : String) → IsEnding t s → IsEnding t (String.◌∷◌ c s)

-- A pattern without `*.` is the host. One with it is a domain, its host or a host below it.
pub data Matches (host pattern : String) : Type 0 where
  exact : after "*." pattern ≡ none → host ≡ pattern → Matches host pattern
  apex : (suffix : String) → after "*." pattern ≡ some suffix → host ≡ suffix → Matches host pattern
  below :
      (suffix : String)
      → after "*." pattern ≡ some suffix
      → IsEnding (String.◌∷◌ dot suffix) host
      → Matches host pattern

pub data SomeMatches (host : String) : List String → Type 0 where
  here : (p : String) (ps : List String) → Matches host p → SomeMatches host (p ∷ ps)
  further : (p : String) (ps : List String) → SomeMatches host ps → SomeMatches host (p ∷ ps)

ends_with-IsEnding : (t s : String) → ends_with t s ≡ true → IsEnding t s
ends_with-IsEnding t String.[] h =
    subst (λ x. IsEnding x String.[]) ((eq_iff String.[] t).0 h) whole
ends_with-IsEnding t (String.◌∷◌ c s) h = elim (Bool-cases (str_eq (String.◌∷◌ c s) t)) [
  | inl e ↦ subst (λ x. IsEnding x (String.◌∷◌ c s)) ((eq_iff (String.◌∷◌ c s) t).0 e) whole
  | inr e ↦ behind c s (ends_with-IsEnding t s (rw e at h))
]

ends_with_self : (t : String) → ends_with t t ≡ true
ends_with_self String.[] = (eq_iff String.[] String.[]).1 refl
ends_with_self (String.◌∷◌ c s) = rw ((eq_iff (String.◌∷◌ c s) (String.◌∷◌ c s)).1 refl) refl

IsEnding-ends_with : (t s : String) → IsEnding t s → ends_with t s ≡ true
IsEnding-ends_with t _ whole = ends_with_self t
IsEnding-ends_with t _ (behind c s k) = elim (Bool-cases (str_eq (String.◌∷◌ c s) t)) [
  | inl e ↦ rw e refl
  | inr e ↦ rw e (IsEnding-ends_with t s k)
]

pattern_matches_iff :
    (host pattern : String)
    → (pattern_matches host pattern (after "*." pattern) ≡ true) ↔ Matches host pattern
pattern_matches_iff host pattern = (to, back)
  where
    to : pattern_matches host pattern (after "*." pattern) ≡ true → Matches host pattern
    to h = elim (Option-cases (after "*." pattern)) [
      | inl e ↦ exact e ((eq_iff host pattern).0 (rw e at h))
      | inr (suffix, e) ↦ elim (Bool-cases (str_eq host suffix)) [
        | inl d ↦ apex suffix e ((eq_iff host suffix).0 d)
        | inr d ↦ below suffix e (ends_with-IsEnding (String.◌∷◌ dot suffix) host (rw (e, d) at h))
      ]
    ]

    back : Matches host pattern → pattern_matches host pattern (after "*." pattern) ≡ true
    back (exact e d) = rw e ((eq_iff host pattern).1 d)
    back (apex suffix e d) = rw (e, (eq_iff host suffix).1 d) refl
    back (below suffix e k) = elim (Bool-cases (str_eq host suffix)) [
      | inl d ↦ rw (e, d) refl
      | inr d ↦ rw (e, d) (IsEnding-ends_with (String.◌∷◌ dot suffix) host k)
    ]

some_matches-SomeMatches :
    (host : String) (ps : List String) → some_matches host ps ≡ true → SomeMatches host ps
some_matches-SomeMatches host [] h = cc
some_matches-SomeMatches host (p ∷ ps) h =
    elim (Bool-cases (pattern_matches host p (after "*." p))) [
      | inl e ↦ here p ps ((pattern_matches_iff host p).0 e)
      | inr e ↦ further p ps (some_matches-SomeMatches host ps (rw e at h))
    ]

SomeMatches-some_matches :
    (host : String) (ps : List String) → SomeMatches host ps → some_matches host ps ≡ true
SomeMatches-some_matches host _ (here p ps m) = rw ((pattern_matches_iff host p).1 m) refl
SomeMatches-some_matches host _ (further p ps k) =
    elim (Bool-cases (pattern_matches host p (after "*." p))) [
      | inl e ↦ rw e refl
      | inr e ↦ rw e (SomeMatches-some_matches host ps k)
    ]

module _ (parse_json : String → Option Json) (url_hostname : String → Option String)
    (to_lower_case : String → String) where
  -- No domain is named, or the origin's host matches one of them.
  abbrev pub OriginPermitted : Option String → List String → Type 0
  OriginPermitted origin domains =
      (domains ≡ [])
      ⊎ ((host : String) × (host_from_origin parse_json url_hostname to_lower_case origin
            ≡ some host)
          × (str_eq host "" ≡ false)
          × SomeMatches host domains)

  allowed-OriginPermitted :
      (origin : Option String) (domains : List String)
      → is_request_origin_allowed parse_json url_hostname to_lower_case origin domains ≡ true
      → OriginPermitted origin domains
  unfolding is_request_origin_allowed
  allowed-OriginPermitted origin [] h = inl refl
  allowed-OriginPermitted origin (d ∷ ds) h =
      elim (Option-cases (host_from_origin parse_json url_hostname to_lower_case origin)) [
        | inl e ↦ cc (rw e at h)
        | inr (host, e) ↦ elim (Bool-cases (str_eq host "")) [
          | inl f ↦ cc (rw (e, f) at h)
          | inr f ↦ inr (host, e, f, some_matches-SomeMatches host (d ∷ ds) (rw (e, f) at h))
        ]
      ]

  OriginPermitted-allowed :
      (origin : Option String) (domains : List String)
      → OriginPermitted origin domains
      → is_request_origin_allowed parse_json url_hostname to_lower_case origin domains ≡ true
  unfolding is_request_origin_allowed
  OriginPermitted-allowed origin [] h = refl
  OriginPermitted-allowed origin (d ∷ ds) (inl e) = cc
  OriginPermitted-allowed origin (d ∷ ds) (inr (host, e, f, m)) =
      rw (e, f) (SomeMatches-some_matches host (d ∷ ds) m)

  scoped-IsOpen :
      (ss : List String) (category : String) (scopes : List String)
      → scoped parse_json url_hostname to_lower_case ss (scope_of category) ≡ allowed scopes
      → IsOpen category ss × (ss ≡ scopes)
  scoped-IsOpen ss category scopes h = elim (Bool-cases (is_inherited category)) [
    | inl e ↦ cc (rw e at h)
    | inr e ↦ elim (own_property-cases Opens category scope_map scope_map-Opens) [
      | inr (q, away) ↦ (to_all (e, away), cc (rw (e, q) at h))
      | inl (s, q, opens) ↦ elim (Bool-cases (includes ss s)) [
        | inl t ↦ (by_scope s opens (includes-Holds ss s t), cc (rw (e, q, t) at h))
        | inr t ↦ cc (rw (e, q, t) at h)
      ]
    ]
  ]

  IsOpen-scoped :
      (ss : List String) (category : String)
      → IsOpen category ss
      → scoped parse_json url_hostname to_lower_case ss (scope_of category) ≡ allowed ss
  IsOpen-scoped ss category (by_scope s opens k) =
      rw (Opens-scope_of s category opens, Holds-includes s ss k) refl
  IsOpen-scoped ss category (to_all (c, away)) =
      elim (own_property-cases (λ s k. Opens s k) category scope_map scope_map-Opens) [
        | inr (q, away') ↦ rw (c, q) refl
        | inl (s, q, opens) ↦ absurd (Opens-closed s category opens away)
      ]

  -- A key is allowed, with the scopes that its permissions name, exactly when its metadata names no
  -- domain or the host of the request's origin matches one of those it names, a `*.` pattern matching
  -- only the domain and the hosts below it at a dot, and the category of the path is open to all or
  -- one of the scopes opens it.
  pub evaluate_api_key_policy_iff :
      (permissions metadata : Json) (path : String) (origin : Option String) (scopes : List String)
      → (evaluate_api_key_policy parse_json url_hostname to_lower_case permissions metadata path
            origin
          ≡ allowed scopes)
        ↔ (((domains : List String) × Names "allowedDomains"
                (parse_json_value parse_json url_hostname to_lower_case metadata)
                domains
              × OriginPermitted origin domains)
            × Names "scopes"
                (parse_json_value parse_json url_hostname to_lower_case permissions)
                scopes
            × IsOpen (get_endpoint_category path) scopes)
  unfolding evaluate_api_key_policy required_scope_for_path permissions_to_scopes
      metadata_allowed_domains
  evaluate_api_key_policy_iff permissions metadata path origin scopes = (to, back)
    where
      value : Json → Json
      value = parse_json_value parse_json url_hostname to_lower_case

      domains_of : List String
      domains_of = strings_at "allowedDomains" (value metadata)

      held : List String
      held = strings_at "scopes" (value permissions)

      Permitted : Type 0
      Permitted =
          ((domains : List String) × Names "allowedDomains" (value metadata) domains
            × OriginPermitted origin domains)
          × Names "scopes" (value permissions) scopes
          × IsOpen (get_endpoint_category path) scopes

      to :
          evaluate_api_key_policy parse_json url_hostname to_lower_case permissions metadata path
              origin
            ≡ allowed scopes
          → Permitted
      to h =
          elim (Bool-cases
            (is_request_origin_allowed parse_json url_hostname to_lower_case origin domains_of)) [
              | inr e ↦ cc (rw e at h)
              | inl e ↦
                  let (k, d) = scoped-IsOpen held (get_endpoint_category path) scopes (rw e at h) in
                  (
                    (
                      domains_of,
                      strings_at-Names "allowedDomains" (value metadata),
                      allowed-OriginPermitted origin domains_of e,
                    ),
                    subst (Names "scopes" (value permissions)) d
                        (strings_at-Names "scopes" (value permissions)),
                    subst (IsOpen (get_endpoint_category path)) d k,
                  )
            ]

      back :
          Permitted
          → evaluate_api_key_policy parse_json url_hostname to_lower_case permissions metadata path
              origin
            ≡ allowed scopes
      back ((domains, n, o), m, k) =
          let d = Names-strings_at "allowedDomains" (value metadata) domains n in
          let e = Names-strings_at "scopes" (value permissions) scopes m in
          rw (OriginPermitted-allowed origin domains_of (subst (OriginPermitted origin) (sym d) o))
            (IsOpen-scoped held (get_endpoint_category path)
                (subst (IsOpen (get_endpoint_category path)) (sym e) k)
              ∙ ap allowed e)
