-- ===== src/Outbound/Target.antt =====
-- The target of a request: `normalizeOutboundUrl` and `resolveOutboundTarget` of
-- packages/outbound/src/index.ts. The answer of the lookup is an argument.
use text.Mathlib.Text.{◌==◌ as str_eq}
use planisfy.Common.{
  String, Bool, true, not, ◌&&◌, ◌||◌, Option, none, some, List, [], ◌∷◌, if◌then◌else◌, ◌==◌,
}
use planisfy.Common.Table.{any_where}
use planisfy.Outbound.{
  Url, Platform, LookupAddress, OutboundRequestError, invalid_url, host_not_allowed,
  private_address, dns_failed, normalize_mapped_ipv4, address_family, check, is_blocked_address,
  normalize_host,
}
use planisfy.Outbound.Allowlist.{AllowlistSetting, PrivateAllowlist, parse_private_allowlist}

-- `string | URL`; a URL is parsed to itself.
pub data Value : Type 0 where
  raw : String → Value
  url : Url → Value

pub record OutboundPolicy : Type 0 where
  pub allowed_hosts : Option (List String)
  pub private_allowlist : AllowlistSetting

pub record ResolvedOutboundTarget : Type 0 where
  pub url : Url
  pub addresses : List LookupAddress

pub data Resolution : Type 0 where
  refused : OutboundRequestError → Resolution
  resolved : ResolvedOutboundTarget → Resolution

module _ (platform : Platform) where
  abbrev pub parsed : Value → Option Url
  parsed (raw s) = platform.parse_url s
  parsed (Value.url u) = some u

  abbrev pub is_web : Url → Bool
  is_web u = str_eq u.protocol "http:" || str_eq u.protocol "https:"

  abbrev pub has_credentials : Url → Bool
  has_credentials u = not (str_eq u.username "") || not (str_eq u.password "")

  unfoldable pub checked_url : Option Url → Option Url
  checked_url none = none
  checked_url (some u) = if not (is_web u) then none else if has_credentials u then none else some u

  -- `none` is INVALID_URL.
  unfoldable pub normalize_outbound_url : Value → Option Url
  unfolding checked_url
  normalize_outbound_url value = checked_url (parsed value)

  abbrev pub host_of : Url → String
  host_of u = normalize_host platform u.hostname

  abbrev pub is_host_allowed : Option (List String) → String → Bool
  is_host_allowed none hostname = true
  is_host_allowed (some hosts) hostname =
      any_where (λ allowed. str_eq (normalize_host platform allowed) hostname) hosts

  -- Whether an answer makes `resolveOutboundTarget` throw.
  unfoldable pub is_refused : PrivateAllowlist → String → LookupAddress → Bool
  is_refused allowlist hostname answer =
      is_blocked_address platform answer.address
      && (not (any_where (λ h. str_eq h hostname) allowlist.hosts)
          && not (
              check platform allowlist.addresses (normalize_mapped_ipv4 platform answer.address)
                (address_family platform (normalize_mapped_ipv4 platform answer.address))))

  module _ (lookup : String → Option (List LookupAddress)) where
    -- The addresses; `none` where the lookup fails.
    abbrev pub addresses_of : String → Option (List LookupAddress)
    addresses_of hostname =
        if not (platform.is_ip hostname == 0)
        then some (record { address = hostname; family = platform.is_ip hostname } ∷ [])
        else lookup hostname

    screened : Option PrivateAllowlist → Url → List LookupAddress → Resolution
    unfolding is_refused
    screened none u addresses = refused invalid_url
    screened (some allowlist) u addresses =
        if any_where (is_refused allowlist (host_of u)) addresses
        then refused private_address
        else resolved (record { url = u; addresses = addresses })

    unfoldable pub with_addresses : OutboundPolicy → Url → Option (List LookupAddress) → Resolution
    unfolding screened parse_private_allowlist
    with_addresses policy u none = refused dns_failed
    with_addresses policy u (some []) = refused dns_failed
    with_addresses policy u (some (answer ∷ more)) =
        screened (parse_private_allowlist platform policy.private_allowlist) u (answer ∷ more)

    unfoldable pub with_url : OutboundPolicy → Option Url → Resolution
    unfolding with_addresses normalize_host
    with_url policy none = refused invalid_url
    with_url policy (some u) =
        let going_on = with_addresses policy u (addresses_of (host_of u)) in
        if is_host_allowed policy.allowed_hosts (host_of u)
        then going_on
        else refused host_not_allowed

    unfoldable pub resolve_outbound_target : Value → OutboundPolicy → Resolution
    unfolding with_url normalize_outbound_url
    resolve_outbound_target value policy = with_url policy (normalize_outbound_url value)
