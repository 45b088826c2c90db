-- ===== src/Outbound/Rounds.antt =====
-- What a request with its redirects sends, and where: `requestWithRedirects` and `makePinnedRequest`
-- of packages/outbound/src/index.ts.
use text.Mathlib.Text.{◌==◌ as str_eq}
use planisfy.Common.{
  ℕ, zero, suc, ◌+◌, ◌-◌, ◌≤◌, ◌<◌, String, Bool, true, false, Option, none, some, List, [], ◌∷◌,
  ◌≡◌, refl, subst, ◌⊎◌, inl, inr, arith, All, Bool-cases, Option-cases, ◌==◌, leb, length,
}
use planisfy.Common.Table.{select_where, select_where-All_of}
use planisfy.Outbound.{Url, Platform, LookupAddress, OutboundRequestError, too_many_redirects}
use planisfy.Outbound.Target.{
  Value, url, OutboundPolicy, ResolvedOutboundTarget, Resolution, refused, resolved, is_web,
  has_credentials, checked_url, normalize_outbound_url, resolve_outbound_target,
}
use planisfy.Outbound.Screening.{
  Screened, Resolving, accepted, bad_url, bad_allowlist, other_host, unresolved, forbidden,
  resolve_outbound_target-Resolving,
}
use planisfy.Outbound.Redirects.{
  OutboundRequestOptions, IncomingMessage, Ended, threw, network_error, bad_location, consumed,
  out_of_fuel, Run, Network, pinned_lookup, is_redirect, given, answers, redirect_limit, redirected,
  request_of, located, follow, answered, sending, request_with_redirects, with_outbound_response,
}

answers-All :
    (P : LookupAddress → Type 0) (every : Bool) (matches addresses : List LookupAddress)
    → All P matches
    → All P addresses
    → All P (answers every matches addresses)
answers-All P true matches addresses h k = h
answers-All P false (a ∷ matches) addresses (p, h) k = (p, tt)
answers-All P false [] (a ∷ addresses) h (p, k) = (p, tt)
answers-All P false [] [] h k = tt

pub pinned_lookup-All :
    (P : LookupAddress → Type 0) (target : ResolvedOutboundTarget) (requested_family : ℕ)
    (every : Bool)
    → All P target.addresses
    → All P (pinned_lookup target requested_family every)
unfolding pinned_lookup
pinned_lookup-All P target requested_family every h = elim (Bool-cases (requested_family == 0)) [
  | inl e ↦ rw e (answers-All P every target.addresses target.addresses h h)
  | inr e ↦ rw e (
      answers-All P every (select_where (λ a. a.family == requested_family) target.addresses)
        target.addresses
        (select_where-All_of P P (λ a. a.family == requested_family) target.addresses (λ a p _. p)
          h)
        h)
]

abbrev pub returns : Ended → Bool
returns out_of_fuel = false
returns (threw e) = true
returns network_error = true
returns bad_location = true
returns (consumed response u) = true

module _ (platform : Platform) where
  -- What follows a response: the end, or the next request, of which one more is allowed.
  pub data Answered (target : ResolvedOutboundTarget) (options : OutboundRequestOptions) (k : ℕ)
      (next : IncomingMessage → Url → Run) : Run → Type 0 where
    stopped :
        (e : Ended)
        → returns e ≡ true
        → Answered target options k next (record { sent = []; ended = e })
    redirecting :
        (response : IncomingMessage) (u : Url)
        → k < redirect_limit options
        → Answered target options k next (next response u)

  module _ (network : Network) where
    located-Answered :
        (target : ResolvedOutboundTarget) (options : OutboundRequestOptions) (k : ℕ)
        (response : IncomingMessage) (location : Option String) (next : IncomingMessage → Url → Run)
        → Answered target options k next
            (located platform network target options k response location (next response))
    unfolding located follow
    located-Answered target options k response none next =
        stopped (consumed response target.url) refl
    located-Answered target options k response (some location) next =
        elim (Bool-cases (is_redirect response.status_code)) [
          | inr f ↦ rw f (stopped (consumed response target.url) refl)
          | inl f ↦ elim (Bool-cases (leb (redirect_limit options) k)) [
            | inl g ↦ rw (f, g) (stopped (threw too_many_redirects) refl)
            | inr g ↦ elim (Option-cases (platform.relative_url location target.url)) [
              | inl e ↦ rw (f, g, e) (stopped bad_location refl)
              | inr (u, e) ↦ rw (f, g, e) (redirecting response u (ground arith))
            ]
          ]
        ]

    pub answered-Answered :
        (target : ResolvedOutboundTarget) (options : OutboundRequestOptions) (k : ℕ)
        (message : Option IncomingMessage) (next : IncomingMessage → Url → Run)
        → Answered target options k next (answered platform network target options k message next)
    unfolding answered
    answered-Answered target options k none next = stopped network_error refl
    answered-Answered target options k (some response) next =
        located-Answered target options k response (given response.location) next

-- What resolving to a target says.
pub resolved-Screened :
    (platform : Platform) (policy : OutboundPolicy) (lookup : String → Option (List LookupAddress))
    (value : Value) (x : Resolution) (target : ResolvedOutboundTarget)
    → Resolving platform policy lookup value x
    → x ≡ resolved target
    → (normalize_outbound_url platform value ≡ some target.url) × Screened platform policy target
resolved-Screened platform policy lookup value _ target (accepted t hu ha screened) e =
    let same : t ≡ target = cc e in
    subst (λ y. (normalize_outbound_url platform value ≡ some y.url) × Screened platform policy y)
      same (hu, screened)
resolved-Screened platform policy lookup value _ target (bad_url h) e = cc e
resolved-Screened platform policy lookup value _ target (bad_allowlist h) e = cc e
resolved-Screened platform policy lookup value _ target (other_host u h k) e = cc e
resolved-Screened platform policy lookup value _ target (unresolved u h k) e = cc e
resolved-Screened platform policy lookup value _ target (forbidden u h l c a k f) e = cc e

-- A URL is resolved to a target with that URL.
pub checked_url-same :
    (platform : Platform) (u v : Url) → checked_url platform (some u) ≡ some v → u ≡ v
unfolding checked_url
checked_url-same platform u v h = elim (Bool-cases (is_web platform u)) [
  | inr e ↦ cc (rw e at h)
  | inl e ↦ elim (Bool-cases (has_credentials platform u)) [
    | inl f ↦ cc (rw (e, f) at h)
    | inr f ↦ cc (rw (e, f) at h)
  ]
]

pub resolution-cases :
    (x : Resolution)
    → ((e : OutboundRequestError) × (x ≡ refused e))
      ⊎ ((t : ResolvedOutboundTarget) × (x ≡ resolved t))
resolution-cases (refused e) = inl (e, refl)
resolution-cases (resolved t) = inr (t, refl)

-- What a run is: it ends, has at most as many requests as rounds, and each of them goes to a
-- target that was screened.
pub record Guarded (platform : Platform) (policy : OutboundPolicy) (rounds : ℕ) (run : Run)
    : Type 0 where
  pub ends : returns run.ended ≡ true
  pub bounded : length run.sent ≤ rounds
  pub screened : All (λ s. Screened platform policy s.target) run.sent

Answered-Guarded :
    (platform : Platform) (target : ResolvedOutboundTarget) (options : OutboundRequestOptions)
    (k rounds : ℕ) (next : IncomingMessage → Url → Run) (run : Run)
    → ((response : IncomingMessage) (u : Url)
        → k < redirect_limit options
        → Guarded platform options.policy rounds (next response u))
    → Answered platform target options k next run
    → Guarded platform options.policy rounds run
Answered-Guarded platform target options k rounds next _ more (stopped e h) = record {
  ends = h;
  bounded = omega arith;
  screened = tt;
}
Answered-Guarded platform target options k rounds next _ more (redirecting response u h) =
    more response u h

module _ (platform : Platform) (network : Network) where
  -- A request to a target that was resolved, and what follows it.
  sending-Guarded :
      (options : OutboundRequestOptions) (k rounds : ℕ) (target : ResolvedOutboundTarget)
      (next : IncomingMessage → Url → Run)
      → Screened platform options.policy target
      → ((response : IncomingMessage) (u : Url)
          → k < redirect_limit options
          → Guarded platform options.policy rounds (next response u))
      → Guarded platform options.policy (suc rounds) (record {
        sent =
            request_of platform network target options
            ∷ (answered platform network target options k
                (network.respond k (request_of platform network target options))
                next).sent;
        ended =
            (answered platform network target options k
              (network.respond k (request_of platform network target options))
              next).ended;
      })
  sending-Guarded options k rounds target next screened more =
      let message = network.respond k (request_of platform network target options) in
      let rest =
        Answered-Guarded platform target options k rounds next
          (answered platform network target options k message next) more
          (answered-Answered platform network target options k message next) in
      record {
        ends = rest.ends;
        bounded = omega (arith, rest.bounded);
        screened = (screened, rest.screened);
      }

  request_with_redirects-Guarded :
      (fuel : ℕ) (value : Value) (options : OutboundRequestOptions) (k rounds : ℕ)
      → k + rounds ≡ redirect_limit options
      → suc rounds ≤ fuel
      → Guarded platform options.policy
          (suc rounds)
          (request_with_redirects platform network fuel value options k)
  unfolding request_with_redirects sending redirected
  request_with_redirects-Guarded zero value options k rounds sum enough = absurd (omega arith)
  request_with_redirects-Guarded (suc fuel) value options k rounds sum enough =
      let resolution = resolve_outbound_target platform (network.lookup k) value options.policy in
      elim (resolution-cases resolution) [
        | inl (e, h) ↦ rw h (record { ends = refl; bounded = omega arith; screened = tt })
        | inr (target, h) ↦ rw h (
            sending-Guarded options k rounds target _
              (resolved-Screened platform options.policy (network.lookup k) value resolution target
                (resolve_outbound_target-Resolving platform options.policy (network.lookup k) value)
                h).1
              (λ response u lt.
                let one_more : suc (rounds - 1) ≡ rounds = omega arith in
                subst
                  (λ n. Guarded platform options.policy n (
                    request_with_redirects platform network fuel (url u)
                      (redirected platform options response (str_eq u.origin target.url.origin))
                      (k + 1)))
                  one_more
                  (request_with_redirects-Guarded fuel (url u)
                    (redirected platform options response (str_eq u.origin target.url.origin))
                    (k + 1) (rounds - 1) (omega arith) (omega arith))))
      ]

  -- A request with its redirects ends: the rounds that the limit allows are enough. It sends at most
  -- one request more than the limit, and each goes to a target that was screened in its own round:
  -- an http or https URL without credentials on an allowed host, each of whose addresses is public
  -- or allow-listed.
  pub with_outbound_response-Guarded :
      (value : Value) (options : OutboundRequestOptions)
      → Guarded platform options.policy
          (suc (redirect_limit options))
          (with_outbound_response platform network value options)
  unfolding with_outbound_response
  with_outbound_response-Guarded value options =
      request_with_redirects-Guarded (suc (redirect_limit options)) value options 0
        (redirect_limit options) (omega arith) (omega arith)
