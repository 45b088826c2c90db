-- ===== src/Outbound.antt =====
-- The guard of outbound requests: packages/outbound/src/index.ts. What it takes of Node (`URL`,
-- `isIP`, `BlockList`, `Number` and `toLowerCase`) is a record of operations.
pub mod Allowlist
pub mod Target
pub mod Redirects
pub mod Screening
pub mod Rounds
pub mod Credentials
pub mod Body
mod Tests
use Prim.Native.Char.{code}
use text.Mathlib.Text.{◌==◌ as str_eq}
use planisfy.Common.{
  ℕ, ◌+◌, String, Bool, true, false, not, ◌&&◌, ◌||◌, Option, none, some, List, [], ◌∷◌,
  if◌then◌else◌, ◌==◌, leb,
}
use planisfy.Common.Text.{pieces, split_on, after_prefix}
use planisfy.Common.Decimal.{all_digits}
use planisfy.Common.Table.{any_where}

pub data Family : Type 0 where
  ipv4 ipv6 : Family

-- A rule of a `BlockList`.
pub data Rule : Type 0 where
  single : (address : String) → Family → Rule
  subnet : (network : String) (prefix : ℕ) → Family → Rule

pub record Url : Type 0 where
  pub protocol : String
  pub username : String
  pub password : String
  pub hostname : String
  pub origin : String

pub record Platform : Type 0 where
  pub to_lower_case : String → String
  -- 4, 6 or 0
  pub is_ip : String → ℕ
  -- Whether a rule is about an address.
  pub matches : Rule → String → Family → Bool
  -- `Number`, where it gives an integer that is not negative
  pub number : String → Option ℕ
  pub parse_url : String → Option Url
  -- `new URL(location, base)`
  pub relative_url : String → Url → Option Url

pub record LookupAddress : Type 0 where
  pub address : String
  pub family : ℕ

pub data OutboundRequestError : Type 0 where
  invalid_url host_not_allowed private_address dns_failed too_many_redirects timeout
        response_too_large :
      OutboundRequestError

abbrev pub v4 : String → ℕ → Rule
v4 network prefix = subnet network prefix ipv4

abbrev pub v6 : String → ℕ → Rule
v6 network prefix = subnet network prefix ipv6

abbrev pub blocked_addresses : List Rule
blocked_addresses =
    v4 "0.0.0.0" 8
    ∷ v4 "10.0.0.0" 8
    ∷ v4 "100.64.0.0" 10
    ∷ v4 "127.0.0.0" 8
    ∷ v4 "169.254.0.0" 16
    ∷ v4 "172.16.0.0" 12
    ∷ v4 "192.0.0.0" 24
    ∷ v4 "192.0.2.0" 24
    ∷ v4 "192.88.99.0" 24
    ∷ v4 "192.168.0.0" 16
    ∷ v4 "198.18.0.0" 15
    ∷ v4 "198.51.100.0" 24
    ∷ v4 "203.0.113.0" 24
    ∷ v4 "224.0.0.0" 4
    ∷ v4 "240.0.0.0" 4
    ∷ v6 "::" 96
    ∷ v6 "64:ff9b::" 96
    ∷ v6 "64:ff9b:1::" 48
    ∷ v6 "100::" 64
    ∷ v6 "2001::" 32
    ∷ v6 "2001:2::" 48
    ∷ v6 "2001:10::" 28
    ∷ v6 "2001:20::" 28
    ∷ v6 "2001:db8::" 32
    ∷ v6 "2002::" 16
    ∷ v6 "3fff::" 20
    ∷ v6 "fc00::" 7
    ∷ v6 "fe80::" 10
    ∷ v6 "fec0::" 10
    ∷ v6 "ff00::" 8
    ∷ []

abbrev is_number : String → Bool
is_number s = not (str_eq s "") && all_digits s

abbrev four_numbers : List String → Bool
four_numbers (a ∷ b ∷ c ∷ d ∷ []) = is_number a && (is_number b && (is_number c && is_number d))
four_numbers _ = false

-- The text of a match of `\d+\.\d+\.\d+\.\d+`, or the address itself.
unfoldable pub mapped : String → Option String → String
mapped whole none = whole
mapped whole (some s) = if four_numbers (pieces 46 s) then s else whole

-- `^\[`, and a last character.
unfoldable pub drop_first : ℕ → String → String
drop_first n String.[] = String.[]
drop_first n (String.◌∷◌ c s) = if code c == n then s else String.◌∷◌ c s

unfoldable pub drop_last : ℕ → String → String
drop_last n String.[] = String.[]
drop_last n (String.◌∷◌ c s) =
    let rest = drop_last n s in if str_eq s "" && code c == n then "" else String.◌∷◌ c rest

module _ (platform : Platform) where
  unfoldable pub normalize_mapped_ipv4 : String → String
  unfolding mapped split_on
  normalize_mapped_ipv4 address =
      mapped address (after_prefix "::ffff:" (platform.to_lower_case address))

  abbrev pub address_family : String → Family
  address_family address = if platform.is_ip address == 4 then ipv4 else ipv6

  -- `BlockList.check`
  unfoldable pub check : List Rule → String → Family → Bool
  check rules address family = any_where (λ rule. platform.matches rule address family) rules

  unfoldable pub is_blocked_address : String → Bool
  unfolding normalize_mapped_ipv4 check
  is_blocked_address address =
      check blocked_addresses (normalize_mapped_ipv4 address)
        (address_family (normalize_mapped_ipv4 address))

  unfoldable pub normalize_host : String → String
  unfolding drop_first drop_last
  normalize_host host = drop_last 46 (drop_last 93 (drop_first 91 (platform.to_lower_case host)))
