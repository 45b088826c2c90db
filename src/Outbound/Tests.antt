-- ===== src/Outbound/Tests.antt =====
-- Outbound requests of packages/outbound/src/index.ts over a small network with three hosts.
use text.Mathlib.Text.{◌==◌ as str_eq}
use planisfy.Common.{
  ℕ, suc, String, Bool, false, ◌&&◌, ◌||◌, Option, none, some, [], ◌∷◌, ◌≡◌, refl, if◌then◌else◌,
  ◌==◌,
}
use planisfy.Common.Text.{split_on, trim_start, trim_end}
use planisfy.Common.Decimal.{all_digits, digits_value}
use planisfy.Common.Table.{select_where, any_where}
use planisfy.Outbound.{
  ipv4, Family, Rule, single, subnet, Url, Platform, LookupAddress, too_many_redirects,
  private_address, normalize_mapped_ipv4, mapped, check, is_blocked_address, drop_first, drop_last,
}
use planisfy.Outbound.Allowlist.{comma_list, absent, parse_private_allowlist}
use planisfy.Outbound.Target.{
  raw, refused, resolve_outbound_target, normalize_outbound_url, is_refused,
}
use planisfy.Outbound.Screening.{Resolving, resolve_outbound_target-Resolving}
use planisfy.Outbound.Redirects.{
  OutboundRequestOptions, Network, threw, consumed, redirect_limit, with_outbound_response,
}
use planisfy.Outbound.Rounds.{Guarded, with_outbound_response-Guarded}
use planisfy.Outbound.Credentials.{FirstOrigin, with_outbound_response-FirstOrigin}

abbrev web : String → Url
web host = record {
  protocol = "https:";
  username = "";
  password = "";
  hostname = host;
  origin = host;
}

abbrev numbered : String → Option ℕ
numbered s = if all_digits s then some (digits_value 0 s) else none

abbrev url_of : String → Option Url
url_of s =
    if str_eq s "https://tiles"
    then some (web "tiles")
    else if str_eq s "https://other"
    then some (web "other")
    else if str_eq s "https://10.0.0.5"
    then some (web "10.0.0.5")
    else none

abbrev is_match : Rule → String → Family → Bool
is_match (single a ipv4) s ipv4 = str_eq a s
is_match (subnet n p ipv4) s ipv4 =
    p == 0 || (str_eq n "10.0.0.0" && (p == 8 && str_eq s "10.0.0.5"))
is_match _ s _ = false

abbrev node : Platform
node = record {
  to_lower_case = λ s. s;
  is_ip = λ s. if str_eq s "10.0.0.5" then 4 else if str_eq s "8.8.8.8" then 4 else 0;
  matches = is_match;
  number = numbered;
  parse_url = url_of;
  relative_url = λ s u. url_of s;
}

abbrev public_address : LookupAddress
public_address = record { address = "8.8.8.8"; family = 4 }

-- "tiles" redirects to "other" and back, and answers in the third round.
abbrev network : Network
network = record {
  lookup = λ k host. some (public_address ∷ []);
  respond = λ k sent.
      if k == 2
      then some (record { status_code = some 200; location = none })
      else some (record {
        status_code = some 302;
        location = some (if k == 0 then "https://other" else "https://tiles");
      });
}

abbrev options : OutboundRequestOptions
options = record {
  policy = record { allowed_hosts = none; private_allowlist = absent };
  method = some "POST";
  headers = some (("authorization", "secret") ∷ ("accept", "json") ∷ []);
  body = some "{}";
  max_redirects = some 2;
}

there_and_back :
    (with_outbound_response node network (raw "https://tiles") options).ended
    ≡ consumed (record { status_code = some 200; location = none }) (web "tiles")
unfolding with_outbound_response parse_private_allowlist mapped drop_first drop_last split_on check
    is_blocked_address normalize_mapped_ipv4 is_refused any_where trim_start trim_end
    resolve_outbound_target normalize_outbound_url select_where
there_and_back = refl

one_redirect_only :
    (with_outbound_response node network
      (raw "https://tiles")
      (record options { max_redirects = some 1 })).ended
    ≡ threw too_many_redirects
unfolding with_outbound_response parse_private_allowlist mapped drop_first drop_last split_on check
    is_blocked_address normalize_mapped_ipv4 is_refused any_where trim_start trim_end
    resolve_outbound_target normalize_outbound_url select_where
one_redirect_only = refl

private_run :
    resolve_outbound_target node (network.lookup 0) (raw "https://10.0.0.5") options.policy
    ≡ refused private_address
unfolding parse_private_allowlist mapped drop_first drop_last split_on check is_blocked_address
    normalize_mapped_ipv4 is_refused any_where trim_start trim_end resolve_outbound_target
    normalize_outbound_url
private_run = refl

-- An entry that ends in its slash has the prefix `Number("")`, which is 0: it admits every IPv4 address.
empty_prefix :
    parse_private_allowlist node (comma_list "10.0.0.5/")
    ≡ some (record { hosts = []; addresses = subnet "10.0.0.5" 0 ipv4 ∷ [] })
unfolding parse_private_allowlist mapped drop_first drop_last split_on trim_start trim_end
    normalize_mapped_ipv4
empty_prefix = refl

resolve_outbound_target-Resolving_example :
    Resolving node options.policy
      (network.lookup 0)
      (raw "https://10.0.0.5")
      (resolve_outbound_target node (network.lookup 0) (raw "https://10.0.0.5") options.policy)
resolve_outbound_target-Resolving_example =
    resolve_outbound_target-Resolving node options.policy (network.lookup 0)
      (raw "https://10.0.0.5")

with_outbound_response-Guarded_example :
    Guarded node options.policy
      (suc (redirect_limit options))
      (with_outbound_response node network (raw "https://tiles") options)
with_outbound_response-Guarded_example =
    with_outbound_response-Guarded node network (raw "https://tiles") options

with_outbound_response-FirstOrigin_example :
    FirstOrigin node network
      (with_outbound_response node network (raw "https://tiles") options).sent
with_outbound_response-FirstOrigin_example =
    with_outbound_response-FirstOrigin node network (raw "https://tiles") options
