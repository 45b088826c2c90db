-- ===== src/Outbound/Redirects.antt =====
-- Requests and their redirects: `requestWithRedirects`, `withOutboundResponse` and the lookup that
-- `makePinnedRequest` gives to Node, of packages/outbound/src/index.ts. What the network does is an
-- argument, for each round of redirects: the lookup's answers and the responses. The requests that are
-- made are logged.
use text.Mathlib.Text.{◌==◌ as str_eq}
use planisfy.Common.{
  ℕ, zero, suc, ◌+◌, String, Bool, true, false, not, ◌||◌, Option, none, some, List, [], ◌∷◌,
  if◌then◌else◌, ◌==◌, leb, or_else,
}
use planisfy.Common.Table.{select_where}
use planisfy.Outbound.{Url, Platform, LookupAddress, OutboundRequestError, too_many_redirects}
use planisfy.Outbound.Target.{
  Value, url, OutboundPolicy, ResolvedOutboundTarget, Resolution, refused, resolved,
  resolve_outbound_target,
}

-- A header's name and value.
abbrev pub Headers : Type 0
Headers = List (String × String)

pub record OutboundRequestOptions : Type 0 where
  pub policy : OutboundPolicy
  pub method : Option String
  pub headers : Option Headers
  pub body : Option String
  pub max_redirects : Option ℕ

pub record IncomingMessage : Type 0 where
  pub status_code : Option ℕ
  pub location : Option String

-- A request that is made. `sent_headers` is `options.headers`.
pub record Sent : Type 0 where
  pub target : ResolvedOutboundTarget
  pub sent_method : String
  pub sent_headers : Option Headers
  pub sent_body : Option String

-- How a request ends: an error of the module, a rejection by the network, a location that is no URL,
-- or a response that `consume` is given with its URL.
pub data Ended : Type 0 where
  threw : OutboundRequestError → Ended
  network_error bad_location : Ended
  consumed : IncomingMessage → Url → Ended
  out_of_fuel : Ended

-- The requests, and the end.
pub record Run : Type 0 where
  pub sent : List Sent
  pub ended : Ended

-- What the network does in a round; `respond` is `none` for an error or a timeout.
pub record Network : Type 0 where
  pub lookup : ℕ → String → Option (List LookupAddress)
  pub respond : ℕ → Sent → Option IncomingMessage

-- The addresses that the pinned lookup answers with: all that match the family that Node asks for,
-- or the first of them, or the first of the target.
abbrev pub answers : Bool → List LookupAddress → List LookupAddress → List LookupAddress
answers true matches addresses = matches
answers false (a ∷ _) addresses = a ∷ []
answers false [] (a ∷ _) = a ∷ []
answers false [] [] = []

unfoldable pub pinned_lookup :
    ResolvedOutboundTarget → (requested_family : ℕ) → (every : Bool) → List LookupAddress
pinned_lookup target requested_family every =
    let matches = select_where (λ a. a.family == requested_family) target.addresses in
    if requested_family == 0
    then answers every target.addresses target.addresses
    else answers every matches target.addresses

abbrev pub is_redirect : Option ℕ → Bool
is_redirect none = false
is_redirect (some s) = s == 301 || (s == 302 || (s == 303 || (s == 307 || s == 308)))

-- `location &&`: an empty text counts as none.
abbrev pub given : Option String → Option String
given none = none
given (some s) = if str_eq s "" then none else some s

abbrev pub redirect_limit : OutboundRequestOptions → ℕ
redirect_limit options = or_else options.max_redirects 0

abbrev pub is_see_other : IncomingMessage → Bool
is_see_other response = or_else response.status_code 0 == 303

module _ (platform : Platform) where
  abbrev pub is_sensitive : String × String → Bool
  is_sensitive header =
      let name = platform.to_lower_case header.0 in
      str_eq name "authorization"
      || (str_eq name "cookie" || (str_eq name "proxy-authorization" || str_eq name "x-api-key"))

  unfoldable pub strip_sensitive_headers : Option Headers → Option Headers
  strip_sensitive_headers none = none
  strip_sensitive_headers (some headers) = some (select_where (λ h. not (is_sensitive h)) headers)

  -- The options of the next request.
  unfoldable pub redirected :
      OutboundRequestOptions → IncomingMessage → (same_origin : Bool) → OutboundRequestOptions
  unfolding strip_sensitive_headers
  redirected options response same_origin = record options {
    method = if is_see_other response then some "GET" else options.method;
    body = if is_see_other response then none else options.body;
    headers = if same_origin then options.headers else strip_sensitive_headers options.headers;
  }

  module _ (network : Network) where
    abbrev pub request_of : ResolvedOutboundTarget → OutboundRequestOptions → Sent
    request_of target options = record {
      target = target;
      sent_method = or_else options.method "GET";
      sent_headers = options.headers;
      sent_body = options.body;
    }

    -- What follows a response: `next` is the request to the redirect's URL.
    unfoldable pub follow :
        ResolvedOutboundTarget
        → OutboundRequestOptions
        → (redirect_count : ℕ) → IncomingMessage
        → Option Url
        → (Url → Run)
        → Run
    follow target options redirect_count response none next = record {
      sent = [];
      ended = bad_location;
    }
    follow target options redirect_count response (some u) next = next u

    -- Behind a response with or without a location.
    unfoldable pub located :
        ResolvedOutboundTarget
        → OutboundRequestOptions
        → (redirect_count : ℕ) → IncomingMessage
        → Option String
        → (Url → Run)
        → Run
    unfolding follow
    located target options redirect_count response none next = record {
      sent = [];
      ended = consumed response target.url;
    }
    located target options redirect_count response (some location) next =
        let going_on =
          follow target options redirect_count response (platform.relative_url location target.url)
            next in
        if not (is_redirect response.status_code)
        then record { sent = []; ended = consumed response target.url }
        else if leb (redirect_limit options) redirect_count
        then record { sent = []; ended = threw too_many_redirects }
        else going_on

    unfoldable pub answered :
        ResolvedOutboundTarget
        → OutboundRequestOptions
        → (redirect_count : ℕ) → Option IncomingMessage
        → (IncomingMessage → Url → Run)
        → Run
    unfolding located
    answered target options redirect_count none next = record { sent = []; ended = network_error }
    answered target options redirect_count (some response) next =
        located target options redirect_count response (given response.location) (next response)

    unfoldable pub sending :
        OutboundRequestOptions
        → (redirect_count : ℕ) → Resolution
        → (ResolvedOutboundTarget → IncomingMessage → Url → Run)
        → Run
    unfolding answered
    sending options redirect_count (refused e) next = record { sent = []; ended = threw e }
    sending options redirect_count (resolved target) next =
        let rest =
          answered target options redirect_count
            (network.respond redirect_count (request_of target options)) (next target) in
        record { sent = request_of target options ∷ rest.sent; ended = rest.ended }

    unfoldable pub request_with_redirects :
        (fuel : ℕ) → Value → OutboundRequestOptions → (redirect_count : ℕ) → Run
    unfolding sending redirected
    request_with_redirects zero value options redirect_count = record {
      sent = [];
      ended = out_of_fuel;
    }
    request_with_redirects (suc fuel) value options redirect_count =
        sending options redirect_count
          (resolve_outbound_target platform (network.lookup redirect_count) value options.policy)
          (λ target response redirect_url.
            request_with_redirects fuel (url redirect_url)
              (redirected options response (str_eq redirect_url.origin target.url.origin))
              (redirect_count + 1))

    -- A round for each redirect that is allowed, and the first.
    unfoldable pub with_outbound_response : Value → OutboundRequestOptions → Run
    unfolding request_with_redirects
    with_outbound_response value options =
        request_with_redirects (suc (redirect_limit options)) value options 0
