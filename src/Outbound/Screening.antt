-- ===== src/Outbound/Screening.antt =====
-- What `resolveOutboundTarget` of packages/outbound/src/index.ts lets through, and why it throws.
use text.Mathlib.Text.{◌==◌ as str_eq}
use planisfy.Common.{
  String, true, false, Option, none, some, List, [], ◌∷◌, ◌≡◌, refl, ◌⊎◌, inl, inr, arith, All,
  Bool-cases, Option-cases, subst, sym, length, ◌≤◌,
}
use planisfy.Common.Table.{any_where}
use planisfy.Common.Unique.{any_where-All}
use planisfy.Outbound.{
  Url, Platform, LookupAddress, invalid_url, host_not_allowed, private_address, dns_failed,
  normalize_mapped_ipv4, address_family, check, is_blocked_address,
}
use planisfy.Outbound.Allowlist.{PrivateAllowlist, parse_private_allowlist}
use planisfy.Outbound.Target.{
  Value, parsed, OutboundPolicy, ResolvedOutboundTarget, Resolution, refused, resolved, checked_url,
  with_addresses, with_url, is_web, has_credentials, normalize_outbound_url, host_of,
  is_host_allowed, is_refused, addresses_of, resolve_outbound_target,
}

checked_web :
    (platform : Platform) (parsed : Option Url) (u : Url)
    → checked_url platform parsed ≡ some u
    → (is_web platform u ≡ true) × (has_credentials platform u ≡ false)
unfolding checked_url
checked_web platform none u h = cc
checked_web platform (some v) u h = elim (Bool-cases (is_web platform v)) [
  | inr e ↦ cc (rw e at h)
  | inl e ↦ elim (Bool-cases (has_credentials platform v)) [
    | inl f ↦ cc (rw (e, f) at h)
    | inr f ↦
        let same : v ≡ u = cc (rw (e, f) at h) in
        subst (λ x. (is_web platform x ≡ true) × (has_credentials platform x ≡ false)) same (e, f)
  ]
]

normalized_web :
    (platform : Platform) (value : Value) (u : Url)
    → normalize_outbound_url platform value ≡ some u
    → (is_web platform u ≡ true) × (has_credentials platform u ≡ false)
unfolding normalize_outbound_url
normalized_web platform value u h = checked_web platform (parsed platform value) u h

module _ (platform : Platform) (policy : OutboundPolicy) where
  -- An answer is public, or the allowlist names the host or the address.
  abbrev pub IsAdmitted : PrivateAllowlist → String → LookupAddress → Type 0
  IsAdmitted allowlist hostname answer =
      (is_blocked_address platform answer.address ≡ false)
      ⊎ ((any_where (λ h. str_eq h hostname) allowlist.hosts ≡ true)
          ⊎ (check platform allowlist.addresses (normalize_mapped_ipv4 platform answer.address)
                (address_family platform (normalize_mapped_ipv4 platform answer.address))
              ≡ true))

  -- A target that may be connected to.
  pub record Screened (target : ResolvedOutboundTarget) : Type 0 where
    pub web : is_web platform target.url ≡ true
    pub bare : has_credentials platform target.url ≡ false
    pub host_allowed :
        is_host_allowed platform policy.allowed_hosts (host_of platform target.url) ≡ true
    pub allowlist : PrivateAllowlist
    pub configured : parse_private_allowlist platform policy.private_allowlist ≡ some allowlist
    pub reachable : 1 ≤ length target.addresses
    pub admitted : All (IsAdmitted allowlist (host_of platform target.url)) target.addresses

  module _ (lookup : String → Option (List LookupAddress)) (value : Value) where
    -- The lookup has failed, or has no answer.
    abbrev pub NoAnswer : Url → Type 0
    NoAnswer u =
        (addresses_of platform lookup (host_of platform u) ≡ none)
        ⊎ (addresses_of platform lookup (host_of platform u) ≡ some [])

    -- How a value is resolved, with the reason of each error.
    pub data Resolving : Resolution → Type 0 where
      bad_url : normalize_outbound_url platform value ≡ none → Resolving (refused invalid_url)
      bad_allowlist :
          parse_private_allowlist platform policy.private_allowlist ≡ none
          → Resolving (refused invalid_url)
      other_host :
          (u : Url)
          → normalize_outbound_url platform value ≡ some u
          → is_host_allowed platform policy.allowed_hosts (host_of platform u) ≡ false
          → Resolving (refused host_not_allowed)
      unresolved :
          (u : Url)
          → normalize_outbound_url platform value ≡ some u
          → NoAnswer u
          → Resolving (refused dns_failed)
      forbidden :
          (u : Url)
          → normalize_outbound_url platform value ≡ some u
          → (allowlist : PrivateAllowlist)
          → parse_private_allowlist platform policy.private_allowlist ≡ some allowlist
          → (addresses : List LookupAddress)
          → addresses_of platform lookup (host_of platform u) ≡ some addresses
          → any_where (is_refused platform allowlist (host_of platform u)) addresses ≡ true
          → Resolving (refused private_address)
      accepted :
          (target : ResolvedOutboundTarget)
          → normalize_outbound_url platform value ≡ some target.url
          → addresses_of platform lookup (host_of platform target.url) ≡ some target.addresses
          → Screened target
          → Resolving (resolved target)

    not_refused :
        (allowlist : PrivateAllowlist) (hostname : String) (addresses : List LookupAddress)
        → All (λ a. is_refused platform allowlist hostname a ≡ false) addresses
        → All (IsAdmitted allowlist hostname) addresses
    unfolding is_refused
    not_refused allowlist hostname [] h = tt
    not_refused allowlist hostname (a ∷ rest) (e, h) =
        (ground arith, not_refused allowlist hostname rest h)

    with_addresses-Resolving :
        (u : Url)
        → normalize_outbound_url platform value ≡ some u
        → is_host_allowed platform policy.allowed_hosts (host_of platform u) ≡ true
        → (answer : Option (List LookupAddress))
        → addresses_of platform lookup (host_of platform u) ≡ answer
        → Resolving (with_addresses platform lookup policy u answer)
    unfolding with_addresses
    with_addresses-Resolving u hu ha none e = unresolved u hu (inl e)
    with_addresses-Resolving u hu ha (some []) e = unresolved u hu (inr e)
    with_addresses-Resolving u hu ha (some (a ∷ rest)) e =
        elim (Option-cases (parse_private_allowlist platform policy.private_allowlist)) [
          | inl c ↦ rw c (bad_allowlist c)
          | inr (allowlist, c) ↦
              elim (Bool-cases
                (any_where (is_refused platform allowlist (host_of platform u)) (a ∷ rest))) [
                  | inl f ↦ rw (c, f) (forbidden u hu allowlist c (a ∷ rest) e f)
                  | inr f ↦
                      let (web, bare) = normalized_web platform value u hu in
                      rw (c, f)
                        (accepted (record { url = u; addresses = a ∷ rest }) hu e
                          (record {
                            web = web;
                            bare = bare;
                            host_allowed = ha;
                            allowlist = allowlist;
                            configured = c;
                            reachable = omega arith;
                            admitted = not_refused allowlist (host_of platform u) (a ∷ rest) (
                                any_where-All (is_refused platform allowlist (host_of platform u))
                                  (a ∷ rest) f);
                          }))
                ]
        ]

    with_url-Resolving :
        (u : Url)
        → normalize_outbound_url platform value ≡ some u
        → Resolving (with_url platform lookup policy (some u))
    unfolding with_url
    with_url-Resolving u hu =
        elim (Bool-cases (is_host_allowed platform policy.allowed_hosts (host_of platform u))) [
          | inl e ↦ rw e (with_addresses-Resolving u hu e _ refl)
          | inr e ↦ rw e (other_host u hu e)
        ]

    -- A request is refused for the reason that its error names, and a target that is resolved is an
    -- http or https URL without credentials on an allowed host, with at least one address; each of
    -- its addresses is public, or the allowlist names the host or the address.
    pub resolve_outbound_target-Resolving :
        Resolving (resolve_outbound_target platform lookup value policy)
    unfolding resolve_outbound_target
    resolve_outbound_target-Resolving =
        elim (Option-cases (normalize_outbound_url platform value)) [
          | inl e ↦ rw e (bad_url e)
          | inr (u, e) ↦
              subst (λ x. Resolving (with_url platform lookup policy x)) (sym e)
                (with_url-Resolving u e)
        ]
