-- ===== src/Outbound/Credentials.antt =====
-- Where credentials go: `stripSensitiveHeaders` and the redirects of `requestWithRedirects` in
-- packages/outbound/src/index.ts.
use text.Mathlib.Text.{◌==◌ as str_eq}
use text.Mathlib.TextEquality.{eq_iff}
use planisfy.Common.{
  ℕ, zero, suc, ◌+◌, String, false, not, Option, none, some, List, [], ◌∷◌, ◌≡◌, refl, sym, ap, ◌∙◌,
  ◌⊎◌, inl, inr, arith, All, Bool-cases,
}
use planisfy.Common.Table.{select_where-All}
use planisfy.Outbound.{Url, Platform}
use planisfy.Outbound.Target.{
  Value, url, ResolvedOutboundTarget, resolved, normalize_outbound_url, resolve_outbound_target,
}
use planisfy.Outbound.Screening.{resolve_outbound_target-Resolving}
use planisfy.Outbound.Redirects.{
  Headers, OutboundRequestOptions, IncomingMessage, Sent, Run, Network, redirect_limit,
  is_sensitive, strip_sensitive_headers, redirected, request_of, answered, sending,
  request_with_redirects, with_outbound_response,
}
use planisfy.Outbound.Rounds.{
  Answered, stopped, redirecting, answered-Answered, resolved-Screened, checked_url-same,
  resolution-cases,
}

module _ (platform : Platform) where
  -- None of the four headers, in whatever case.
  abbrev pub IsClean : Option Headers → Type 0
  IsClean none = Unit
  IsClean (some headers) = All (λ h. is_sensitive platform h ≡ false) headers

  strip_sensitive_headers-IsClean :
      (headers : Option Headers) → IsClean (strip_sensitive_headers platform headers)
  unfolding strip_sensitive_headers
  strip_sensitive_headers-IsClean none = tt
  strip_sensitive_headers-IsClean (some headers) =
      select_where-All (λ h. is_sensitive platform h ≡ false) (λ h. not (is_sensitive platform h))
        headers (λ h e. ground (arith, e))

  -- A request to the origin, or one without such headers.
  abbrev pub IsConfined : String → Sent → Type 0
  IsConfined origin s = (s.target.url.origin ≡ origin) ⊎ IsClean s.sent_headers

  -- What a request starts with: a URL of the origin, or clean headers.
  abbrev Starts : String → Value → OutboundRequestOptions → Type 0
  Starts origin value options =
      ((u : Url) × ((value ≡ url u) × (u.origin ≡ origin))) ⊎ IsClean options.headers

  redirected-Starts :
      (origin : String) (target : ResolvedOutboundTarget) (options : OutboundRequestOptions)
      (response : IncomingMessage) (u : Url)
      → (target.url.origin ≡ origin) ⊎ IsClean options.headers
      → Starts origin
          (url u)
          (redirected platform options response (str_eq u.origin target.url.origin))
  unfolding redirected
  redirected-Starts origin target options response u start =
      elim (Bool-cases (str_eq u.origin target.url.origin)) [
        | inr e ↦ inr (rw e (strip_sensitive_headers-IsClean options.headers))
        | inl e ↦ elim start [
          | inl here ↦ inl (u, (refl, (eq_iff u.origin target.url.origin).0 e ∙ here))
          | inr clean ↦ inr (rw e clean)
        ]
      ]

  Answered-All :
      (P : Sent → Type 0) (target : ResolvedOutboundTarget) (options : OutboundRequestOptions)
      (k : ℕ) (next : IncomingMessage → Url → Run) (run : Run)
      → ((response : IncomingMessage) (u : Url) → All P (next response u).sent)
      → Answered platform target options k next run
      → All P run.sent
  Answered-All P target options k next _ more (stopped e h) = tt
  Answered-All P target options k next _ more (redirecting response u h) = more response u

  module _ (network : Network) where
    answered-All :
        (P : Sent → Type 0) (target : ResolvedOutboundTarget) (options : OutboundRequestOptions)
        (k : ℕ) (message : Option IncomingMessage) (next : IncomingMessage → Url → Run)
        → ((response : IncomingMessage) (u : Url) → All P (next response u).sent)
        → All P (answered platform network target options k message next).sent
    answered-All P target options k message next more =
        Answered-All P target options k next
          (answered platform network target options k message next) more
          (answered-Answered platform network target options k message next)

    -- A URL that is given is the one that the request goes to.
    target_url :
        (value : Value) (options : OutboundRequestOptions) (k : ℕ) (target : ResolvedOutboundTarget)
        (u : Url)
        → resolve_outbound_target platform (network.lookup k) value options.policy ≡ resolved target
        → value ≡ url u
        → u ≡ target.url
    unfolding normalize_outbound_url
    target_url value options k target u h e = checked_url-same platform u target.url (
        ap (normalize_outbound_url platform) (sym e)
        ∙ (resolved-Screened platform options.policy (network.lookup k) value _ target
            (resolve_outbound_target-Resolving platform options.policy (network.lookup k) value)
            h).0)

    request_with_redirects-IsConfined :
        (origin : String) (fuel : ℕ) (value : Value) (options : OutboundRequestOptions) (k : ℕ)
        → Starts origin value options
        → All
            (IsConfined origin)
            (request_with_redirects platform network fuel value options k).sent
    unfolding request_with_redirects sending
    request_with_redirects-IsConfined origin zero value options k start = tt
    request_with_redirects-IsConfined origin (suc fuel) value options k start =
        elim (resolution-cases
          (resolve_outbound_target platform (network.lookup k) value options.policy)) [
            | inl (e, h) ↦ rw h tt
            | inr (target, h) ↦
                let here : (target.url.origin ≡ origin) ⊎ IsClean options.headers = elim start [
                  | inl (u, (e, o)) ↦ inl (
                      ap (λ (x : Url). x.origin) (sym (target_url value options k target u h e))
                      ∙ o)
                  | inr clean ↦ inr clean
                ] in
                rw h (
                  here,
                  answered-All (IsConfined origin) target options k
                      (network.respond k (request_of platform network target options)) _
                      (λ response u.
                        request_with_redirects-IsConfined origin fuel (url u)
                          (redirected platform options response (str_eq u.origin target.url.origin))
                          (k + 1) (redirected-Starts origin target options response u here)),
                )
          ]

    -- Every request behind the first is confined to its origin.
    abbrev pub FirstOrigin : List Sent → Type 0
    FirstOrigin [] = Unit
    FirstOrigin (s ∷ rest) = All (IsConfined s.target.url.origin) rest

    -- Of the requests that a call sends, those behind the first that carry an authorization, cookie,
    -- proxy-authorization or x-api-key header, in whatever case, all go to the first one's origin:
    -- once a redirect leaves the origin these headers are dropped, and a way back does not restore
    -- them.
    pub with_outbound_response-FirstOrigin :
        (value : Value) (options : OutboundRequestOptions)
        → FirstOrigin (with_outbound_response platform network value options).sent
    unfolding with_outbound_response request_with_redirects sending
    with_outbound_response-FirstOrigin value options =
        elim (resolution-cases
          (resolve_outbound_target platform (network.lookup 0) value options.policy)) [
            | inl (e, h) ↦ rw h tt
            | inr (target, h) ↦ rw h (
                answered-All (IsConfined target.url.origin) target options 0
                  (network.respond 0 (request_of platform network target options)) _
                  (λ response u.
                    request_with_redirects-IsConfined target.url.origin (redirect_limit options)
                      (url u)
                      (redirected platform options response (str_eq u.origin target.url.origin)) 1
                      (redirected-Starts target.url.origin target options response u (inl refl))))
          ]
