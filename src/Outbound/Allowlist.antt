-- ===== src/Outbound/Allowlist.antt =====
-- The allowlist of private addresses: `parsePrivateAllowlist` of packages/outbound/src/index.ts.
use Prim.Native.Char.{Char, code}
use text.Mathlib.Text.{◌==◌ as str_eq}
use planisfy.Common.{
  ℕ, String, Bool, true, false, not, ◌&&◌, ◌||◌, Option, none, some, List, [], ◌∷◌, if◌then◌else◌,
  ◌==◌, leb,
}
use planisfy.Common.Text.{pieces, split_on, trim, trim_start, trim_end, string_length}
use planisfy.Outbound.{
  Family, ipv4, ipv6, Rule, single, subnet, Platform, normalize_mapped_ipv4, address_family,
  normalize_host,
}

-- The setting: a text, a list, or undefined.
pub data AllowlistSetting : Type 0 where
  absent : AllowlistSetting
  comma_list : String → AllowlistSetting
  entries : List String → AllowlistSetting

pub record PrivateAllowlist : Type 0 where
  pub hosts : List String
  pub addresses : List Rule

-- `map` with `trim`, then `filter(Boolean)`
trimmed : List String → List String
trimmed [] = []
trimmed (s ∷ rest) = let more = trimmed rest in if str_eq (trim s) "" then more else trim s ∷ more

abbrev pub entries_of : AllowlistSetting → List String
entries_of absent = []
entries_of (comma_list s) = pieces 44 s
entries_of (entries l) = l

-- `[a-z0-9]` and `[a-z0-9-]`, without regard to case
abbrev is_letter_or_digit : Char → Bool
is_letter_or_digit c =
    (leb 97 (code c) && leb (code c) 122)
    || ((leb 65 (code c) && leb (code c) 90) || (leb 48 (code c) && leb (code c) 57))

-- The rest of a label: its last character is no dash.
is_label_rest : String → Bool
is_label_rest String.[] = true
is_label_rest (String.◌∷◌ c s) =
    let rest = is_label_rest s in
    (is_letter_or_digit c || (code c == 45 && not (str_eq s ""))) && rest

is_label : String → Bool
unfolding is_label_rest
is_label String.[] = false
is_label (String.◌∷◌ c s) =
    leb (string_length (String.◌∷◌ c s)) 63 && (is_letter_or_digit c && is_label_rest s)

unfoldable pub all_labels : List String → Bool
unfolding is_label
all_labels [] = true
all_labels (s ∷ rest) = is_label s && all_labels rest

module _ (platform : Platform) where
  unfoldable pub is_valid_hostname : String → Bool
  unfolding all_labels split_on
  is_valid_hostname value =
      let host = normalize_host platform value in
      not (str_eq host "") && (leb (string_length host) 253 && all_labels (pieces 46 host))

  abbrev maximum : Family → ℕ
  maximum ipv4 = 32
  maximum ipv6 = 128

  abbrev add_rule : Option Rule → Option PrivateAllowlist → Option PrivateAllowlist
  add_rule (some rule) (some more) = some (record more { addresses = rule ∷ more.addresses })
  add_rule _ _ = none

  abbrev add_host : String → Option PrivateAllowlist → Option PrivateAllowlist
  add_host host none = none
  add_host host (some more) = some (record more { hosts = host ∷ more.hosts })

  in_range : String → Family → Option ℕ → Option Rule
  in_range normalized family none = none
  in_range normalized family (some prefix) =
      if leb prefix (maximum family) then some (subnet normalized prefix family) else none

  -- The rule of an address with what stands behind its first slash, up to a second one.
  unfoldable pub address_rule : String → List String → Option Rule
  unfolding in_range
  address_rule normalized [] = some (single normalized (address_family platform normalized))
  address_rule normalized (raw_prefix ∷ _) =
      in_range normalized (address_family platform normalized) (platform.number raw_prefix)

  abbrev no_pieces : List String → Bool
  no_pieces [] = true
  no_pieces (_ ∷ _) = false

  -- One entry, given its pieces between slashes, before what the later ones give. An entry that
  -- throws ends the loop; `none` stands for it.
  unfoldable pub parse_entry :
      (entry first : String) (behind : List String)
      → Option PrivateAllowlist
      → Option PrivateAllowlist
  unfolding address_rule is_valid_hostname normalize_mapped_ipv4 normalize_host
  parse_entry entry first behind more =
      let normalized = normalize_mapped_ipv4 platform first in
      if not (str_eq first "") && not (platform.is_ip normalized == 0)
      then add_rule (address_rule normalized behind) more
      else if no_pieces behind && is_valid_hostname entry
      then add_host (normalize_host platform entry) more
      else none

  parse_entries : List String → Option PrivateAllowlist
  unfolding parse_entry split_on
  parse_entries [] = some (record { hosts = []; addresses = [] })
  parse_entries (entry ∷ rest) =
      let (first, behind) = split_on 47 entry in parse_entry entry first behind (parse_entries rest)

  unfoldable pub parse_private_allowlist : AllowlistSetting → Option PrivateAllowlist
  unfolding parse_entries trimmed split_on trim_start trim_end
  parse_private_allowlist value = parse_entries (trimmed (entries_of value))
