-- ===== src/Federation/Destinations.antt =====
-- Where federation calls: `normalize_base_url` of backend/src/routes/federation/security.rs.
use text.Mathlib.Text.{◌==◌ as str_eq}
use text.Mathlib.TextEquality.{eq_iff}
use lab_inventory.Common.{
  Among, arith, ◌<◌, ◌≢◌, Option, none, ◌≡◌, refl, sym, String, Bool, true, false, not, ◌&&◌, ◌||◌,
  some, List, [], ◌∷◌, ◌⊎◌, inl, inr, Bool-cases, ok, >>=-eq-ok, guard-eq-ok, ok-injective, passed,
  and-eq-true, not-eq-true,
}
use lab_inventory.Federation.{Settings}
use lab_inventory.LabelPrinting.Transport.{Ipv4Addr, IpAddr, v4}
use lab_inventory.Federation.Targets.{
  Url, UrlOps, http_refused, is_metadata_ip, is_special, validate_remote_ip, check_scheme,
  is_absent, is_empty, with_port, listed, check_host, validate_remote_url, normalize_base_url,
}

validate_remote_ip_sound :
    (ip : IpAddr) (settings : Settings) (allowlisted : Bool)
    → validate_remote_ip ip settings allowlisted ≡ ok tt
    → (is_metadata_ip ip ≡ false)
      × ((is_special ip ≡ false)
          ⊎ ((settings.allow_insecure_private_network || allowlisted) ≡ true))
unfolding validate_remote_ip
validate_remote_ip_sound ip settings allowlisted h =
    let (plain, h1) = guard-eq-ok (not (is_metadata_ip ip)) _ _ h in
    let usual = passed _ _ h1 in
    (
      not-eq-true _ plain,
      one_of (is_special ip) (settings.allow_insecure_private_network || allowlisted) usual,
    )
  where
    one_of :
        (special allowed : Bool)
        → not (special && not allowed) ≡ true
        → (special ≡ false) ⊎ (allowed ≡ true)
    one_of false allowed h = inl refl
    one_of true true h = inr refl
    one_of true false h = cc

check_scheme_sound :
    (scheme : String) (settings : Settings)
    → check_scheme scheme settings ≡ ok tt
    → (scheme ≡ "https")
      ⊎ ((scheme ≡ "http")
          × (settings.require_https ≡ false)
          × (settings.allow_insecure_private_network ≡ true))
check_scheme_sound scheme settings h = elim (Bool-cases (str_eq scheme "https")) [
  | inl https ↦ inl ((eq_iff scheme "https").0 https)
  | inr other ↦ elim (Bool-cases (str_eq scheme "http")) [
    | inl http ↦
        let (lax, private) = and-eq-true _ _ (passed _ http_refused (rw (other, http) at h)) in
        inr ((eq_iff scheme "http").0 http, not-eq-true _ lax, private)
    | inr neither ↦ let bad = rw (other, neither) at h in cc
  ]
]

-- An address outside the ranges that are private, local to a link, of the host itself or multicast.
pub record IsPublic (x : Ipv4Addr) : Type 0 where
  pub not_loopback : x.a ≢ 127
  pub not_private_10 : x.a ≢ 10
  pub not_private_172 : (x.a ≢ 172) ⊎ ((x.b < 16) ⊎ (31 < x.b))
  pub not_private_192 : (x.a ≢ 192) ⊎ (x.b ≢ 168)
  pub not_link_local : (x.a ≢ 169) ⊎ (x.b ≢ 254)
  pub not_multicast : (x.a < 224) ⊎ (239 < x.a)

is_special-IsPublic : (x : Ipv4Addr) → is_special (v4 x) ≡ false → IsPublic x
is_special-IsPublic x h = record {
  not_loopback = ground arith;
  not_private_10 = ground arith;
  not_private_172 = ground arith;
  not_private_192 = ground arith;
  not_link_local = ground arith;
  not_multicast = ground arith;
}

not_metadata_ip :
    (x : Ipv4Addr)
    → is_metadata_ip (v4 x) ≡ false
    → (x.a ≢ 169) ⊎ ((x.b ≢ 254) ⊎ ((x.c ≢ 169) ⊎ (x.d ≢ 254)))
not_metadata_ip x h = ground arith

is_absent-eq-true : (password : Option String) → is_absent password ≡ true → password ≡ none
is_absent-eq-true none h = refl
is_absent-eq-true (some p) h = cc

module _ (ops : UrlOps) where
  -- The settings list the host, with or without its port, in any case of its letters.
  pub record IsListed (host host_with_port : String) (hosts : List String) : Type 0 where
    pub value : String
    pub among : Among value hosts
    pub same :
        (ops.to_ascii_lowercase value ≡ host) ⊎ (ops.to_ascii_lowercase value ≡ host_with_port)

  listed-IsListed :
      (host host_with_port : String) (hosts : List String)
      → listed ops host host_with_port hosts ≡ true
      → IsListed host host_with_port hosts
  listed-IsListed host host_with_port [] h = cc
  listed-IsListed host host_with_port (value ∷ values) h =
      let lower = ops.to_ascii_lowercase value in
      elim (Bool-cases (str_eq lower host)) [
        | inl bare ↦ record {
          value = value;
          among = inl refl;
          same = inl ((eq_iff lower host).0 bare);
        }
        | inr other ↦ elim (Bool-cases (str_eq lower host_with_port)) [
          | inl full ↦ record {
            value = value;
            among = inl refl;
            same = inr ((eq_iff lower host_with_port).0 full);
          }
          | inr neither ↦
              let rest = listed-IsListed host host_with_port values (rw (other, neither) at h) in
              record { value = rest.value; among = inr rest.among; same = rest.same }
        ]
      ]

  -- The url, whose host is an IPv4 address, may be called, and is written without its path.
  pub record IsAllowed (settings : Settings) (url : Url) (host : String) (x : Ipv4Addr)
      (result : String) : Type 0 where
    pub scheme :
        (url.scheme ≡ "https")
        ⊎ ((url.scheme ≡ "http")
            × (settings.require_https ≡ false)
            × (settings.allow_insecure_private_network ≡ true))
    pub anonymous : (url.username ≡ "") × (url.password ≡ none)
    pub no_path : (url.path ≡ "/") ⊎ (url.path ≡ "")
    pub not_metadata : (x.a ≢ 169) ⊎ ((x.b ≢ 254) ⊎ ((x.c ≢ 169) ⊎ (x.d ≢ 254)))
    pub usual :
        IsPublic x
        ⊎ ((settings.allow_insecure_private_network ≡ true)
            ⊎ IsListed host (with_port ops host url.port) settings.allowed_remote_hosts)
    pub among_allowed :
        (settings.allowed_remote_hosts ≡ [])
        ⊎ IsListed host (with_port ops host url.port) settings.allowed_remote_hosts
    pub written : result ≡ ops.trim_end_slashes url.shown

  check_host_sound :
      (url : Url) (host : String) (settings : Settings) (allowlisted : Bool) (ip : IpAddr)
      → check_host ops url host settings allowlisted ≡ ok tt
      → str_eq host "localhost" ≡ false
      → ops.parse_ip host ≡ some ip
      → (is_metadata_ip ip ≡ false)
        × ((is_special ip ≡ false)
            ⊎ ((settings.allow_insecure_private_network || allowlisted) ≡ true))
  check_host_sound url host settings allowlisted ip h other address =
      let checked = rw (other, address) at h in
      let (u, valid, rest) = >>=-eq-ok (validate_remote_ip ip settings allowlisted) _ checked in
      validate_remote_ip_sound ip settings allowlisted valid

  either : (a b : Bool) → (a || b) ≡ true → (a ≡ true) ⊎ (b ≡ true)
  either true b h = inl refl
  either false b h = inr h

  is_empty-eq-true : (hosts : List String) → is_empty hosts ≡ true → hosts ≡ []
  is_empty-eq-true [] h = refl
  is_empty-eq-true (value ∷ values) h = cc

  permitted :
      (host full : String) (settings : Settings) (x : Ipv4Addr)
      → (is_special (v4 x) ≡ false)
        ⊎ ((settings.allow_insecure_private_network
              || listed ops host full settings.allowed_remote_hosts)
            ≡ true)
      → IsPublic x
        ⊎ ((settings.allow_insecure_private_network ≡ true)
            ⊎ IsListed host full settings.allowed_remote_hosts)
  permitted host full settings x (inl common) = inl (is_special-IsPublic x common)
  permitted host full settings x (inr allowed) = inr (elim (either _ _ allowed) [
    | inl private ↦ inl private
    | inr on_list ↦ inr (listed-IsListed host full settings.allowed_remote_hosts on_list)
  ])

  -- A base url that is accepted and whose host is an IPv4 address, but not the name localhost, uses
  -- https, or http where both settings allow it, and has no user name, no password and no path. The
  -- host is listed where hosts are listed. The address is not the metadata service's, and unless
  -- private networks are allowed or the host is listed, it is not a loopback, private, link-local or
  -- multicast address. Nothing is said of IPv6 hosts, which the code does not check.
  pub normalize_base_url-IsAllowed :
      (settings : Settings) (input result : String) (url : Url) (host : String) (x : Ipv4Addr)
      → ops.parse_url input ≡ some url
      → url.host_str ≡ some host
      → ops.parse_ip (ops.to_ascii_lowercase host) ≡ some (v4 x)
      → ops.to_ascii_lowercase host ≢ "localhost"
      → normalize_base_url ops input settings ≡ ok result
      → IsAllowed settings url (ops.to_ascii_lowercase host) x result
  unfolding normalize_base_url validate_remote_url
  normalize_base_url-IsAllowed settings input result url host x parses hosted address named h =
      let lower = ops.to_ascii_lowercase host in
      let full = with_port ops lower url.port in
      let allowlisted = listed ops lower full settings.allowed_remote_hosts in
      let other : str_eq lower "localhost" ≡ false = elim (Bool-cases (str_eq lower "localhost")) [
        | inl bad ↦ absurd (named ((eq_iff lower "localhost").0 bad))
        | inr fine ↦ fine
      ] in
      let (u, valid, h1) = >>=-eq-ok (validate_remote_url ops url settings) _ (rw parses at h) in
      let (plain, h2) = guard-eq-ok (str_eq url.path "/" || str_eq url.path "") _ _ h1 in
      let (v, schemed, h3) = >>=-eq-ok (check_scheme url.scheme settings) _ valid in
      let (anonymous, h4) = guard-eq-ok (str_eq url.username "" && is_absent url.password) _ _ h3 in
      let (among, h5) =
        guard-eq-ok (is_empty settings.allowed_remote_hosts || allowlisted) _ _ (rw hosted at h4) in
      let (safe, usual) = check_host_sound url lower settings allowlisted (v4 x) h5 other address in
      let (unnamed, absent) = and-eq-true _ _ anonymous in
      record {
        scheme = check_scheme_sound url.scheme settings schemed;
        anonymous = ((eq_iff url.username "").0 unnamed, is_absent-eq-true url.password absent);
        no_path = elim (either _ _ plain) [
          | inl slash ↦ inl ((eq_iff url.path "/").0 slash)
          | inr empty ↦ inr ((eq_iff url.path "").0 empty)
        ];
        not_metadata = not_metadata_ip x safe;
        usual = permitted lower full settings x usual;
        among_allowed = elim (either _ _ among) [
          | inl none_listed ↦ inl (is_empty-eq-true settings.allowed_remote_hosts none_listed)
          | inr on_list ↦ inr (listed-IsListed lower full settings.allowed_remote_hosts on_list)
        ];
        written = sym (ok-injective h2);
      }
