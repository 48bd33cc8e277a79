-- ===== src/Federation/Targets.antt =====
-- The addresses that federation may call: `normalize_base_url` and `validate_remote_url` of
-- backend/src/routes/federation/security.rs. The url and its parts, the parsing of addresses and the
-- lower-case form of a text are arguments.
use Prim.Native.String.{◌++◌ as str_append}
use text.Mathlib.Text.{◌==◌ as str_eq}
use lab_inventory.Common.{
  ℕ, String, Bool, true, false, not, ◌&&◌, ◌||◌, Option, none, some, List, [], ◌∷◌, ◌==◌, leb,
  bit_and, if◌then◌else◌, Result, ok, err, ◌>>=◌, ◌>>◌, guard, ok_or,
}
use lab_inventory.Federation.{Settings}
use lab_inventory.LabelPrinting.Transport.{
  Ipv4Addr, Ipv6Addr, IpAddr, v4, v6, v4_is_loopback, v4_is_link_local, v4_is_unspecified,
  v4_is_broadcast, v4_is_multicast, v4_is_documentation, v6_is_loopback, v6_is_unspecified,
  v6_is_multicast,
}

-- A parsed url; `shown` is its text once query and fragment are removed.
pub record Url : Type 0 where
  pub scheme : String
  pub username : String
  pub password : Option String
  pub host_str : Option String
  pub port : Option ℕ
  pub path : String
  pub shown : String

pub record UrlOps : Type 0 where
  pub parse_url : String → Option Url
  pub parse_ip : String → Option IpAddr
  pub show_port : ℕ → String
  pub to_ascii_lowercase : String → String
  pub trim_end_slashes : String → String

-- The messages of refusal.
pub data TargetError : Type 0 where
  invalid_url http_refused unknown_scheme credentials no_host not_in_allowed_hosts localhost_refused
        metadata_ip special_ip http_not_allowed has_path :
      TargetError

-- `Ipv4Addr::is_private`
abbrev v4_is_private : Ipv4Addr → Bool
v4_is_private x =
    x.a == 10 || (x.a == 172 && leb 16 x.b && leb x.b 31) || (x.a == 192 && x.b == 168)

-- `is_metadata_ip`
abbrev pub is_metadata_ip : IpAddr → Bool
is_metadata_ip (v4 x) = x.a == 169 && x.b == 254 && x.c == 169 && x.d == 254
is_metadata_ip (v6 x) = false

abbrev is_ipv6_unique_local : Ipv6Addr → Bool
is_ipv6_unique_local x = bit_and x.s0 0xfe00 == 0xfc00

abbrev is_ipv6_link_local : Ipv6Addr → Bool
is_ipv6_link_local x = bit_and x.s0 0xffc0 == 0xfe80

abbrev pub is_special : IpAddr → Bool
is_special (v4 x) =
    v4_is_loopback x
    || v4_is_link_local x
    || v4_is_multicast x
    || v4_is_unspecified x
    || v4_is_broadcast x
    || v4_is_documentation x
    || v4_is_private x
is_special (v6 x) =
    v6_is_loopback x
    || v6_is_multicast x
    || v6_is_unspecified x
    || is_ipv6_unique_local x
    || is_ipv6_link_local x

-- `validate_remote_ip`
unfoldable pub validate_remote_ip : IpAddr → Settings → Bool → Result TargetError (Unit {0})
validate_remote_ip ip settings allowlisted = do
  guard (not (is_metadata_ip ip)) metadata_ip
  guard (not (is_special ip && not (settings.allow_insecure_private_network || allowlisted)))
      special_ip

abbrev pub is_absent : {A : Type 0} → Option A → Bool
is_absent none = true
is_absent (some value) = false

abbrev pub is_empty : {A : Type 0} → List A → Bool
is_empty [] = true
is_empty (value ∷ values) = false

-- The match on the scheme.
abbrev pub check_scheme : String → Settings → Result TargetError (Unit {0})
check_scheme scheme settings =
    if str_eq scheme "https"
    then ok tt
    else if str_eq scheme "http"
    then guard (not settings.require_https && settings.allow_insecure_private_network) http_refused
    else err unknown_scheme

module _ (ops : UrlOps) where
  abbrev pub with_port : String → Option ℕ → String
  with_port host none = host
  with_port host (some port) = str_append host (str_append ":" (ops.show_port port))

  abbrev pub listed : String → String → List String → Bool
  listed host host_with_port [] = false
  listed host host_with_port (value ∷ values) =
      let lower = ops.to_ascii_lowercase value in
      str_eq lower host || str_eq lower host_with_port || listed host host_with_port values

  abbrev pub check_parsed : Option IpAddr → Settings → Bool → Result TargetError (Unit {0})
  check_parsed none settings allowlisted = ok tt
  check_parsed (some ip) settings allowlisted = validate_remote_ip ip settings allowlisted

  -- What follows the check of the allowed hosts.
  abbrev pub check_host : Url → String → Settings → Bool → Result TargetError (Unit {0})
  check_host url host settings allowlisted =
      if str_eq host "localhost"
      then guard (settings.allow_insecure_private_network || allowlisted) localhost_refused
      else (check_parsed (ops.parse_ip host) settings allowlisted
          >> guard
              (not (
                str_eq url.scheme "http"
                && not settings.allow_insecure_private_network
                && not allowlisted))
              http_not_allowed)

  -- `validate_remote_url`
  unfoldable pub validate_remote_url : Url → Settings → Result TargetError (Unit {0})
  unfolding validate_remote_ip
  validate_remote_url url settings = do
    check_scheme url.scheme settings
    guard (str_eq url.username "" && is_absent url.password) credentials
    raw ← ok_or url.host_str no_host
    let host = ops.to_ascii_lowercase raw
    let allowlisted = listed host (with_port host url.port) settings.allowed_remote_hosts
    guard (is_empty settings.allowed_remote_hosts || allowlisted) not_in_allowed_hosts
    check_host url host settings allowlisted

  -- `normalize_base_url`
  unfoldable pub normalize_base_url : String → Settings → Result TargetError String
  unfolding validate_remote_url
  normalize_base_url input settings = do
    url ← ok_or (ops.parse_url input) invalid_url
    validate_remote_url url settings
    guard (str_eq url.path "/" || str_eq url.path "") has_path
    ok (ops.trim_end_slashes url.shown)
