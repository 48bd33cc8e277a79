-- ===== src/LabelPrinting/Transport/Policy.antt =====
-- Which printer addresses pass the policy.
use mathlib.Core.Path.{subst}
use mathlib.Core.Bool.{and-false}
use lab_inventory.Common.{
  ℕ, ◌+◌, ◌*◌, ◌/◌, ◌%◌, ◌≤◌, ◌<◌, ◌≡◌, refl, ap, sym, ◌∙◌, Bool, true, false, not, ◌&&◌, ◌||◌,
  Option, none, some, List, [], ◌∷◌, arith, leb, ◌==◌, if◌then◌else◌, All, Result, ok, err,
  >>=-eq-ok, guard-eq-ok, ok-injective,
}
use lab_inventory.LabelPrinting.{min_printer_port}
use lab_inventory.LabelPrinting.Transport.{
  Ipv4Addr, Ipv6Addr, IpAddr, v4, v6, SocketAddr, AddressPolicy, PrinterEndpoint, TransportError,
  strict, v4_is_loopback, is_blocked_v4, is_blocked, validate_printer_ip, validate_all, resolve,
  is_nonempty, looked_up, blocked_address,
}

-- The IPv6 form `::ffff:a.b.c.d` of an IPv4 address.
abbrev pub mapped : Ipv4Addr → Ipv6Addr
mapped x = record {
  s0 = 0;
  s1 = 0;
  s2 = 0;
  s3 = 0;
  s4 = 0;
  s5 = 0xffff;
  s6 = x.a * 256 + x.b;
  s7 = x.c * 256 + x.d;
}

abbrev pub IsOctets : Ipv4Addr → Type 0
IsOctets x = (x.a < 256) × (x.b < 256) × (x.c < 256) × (x.d < 256)

-- A private address: 10.0.0.0/8, 172.16.0.0/12 or 192.168.0.0/16.
abbrev pub is_private : Ipv4Addr → Bool
is_private x = x.a == 10 || (x.a == 172 && leb 16 x.b && leb x.b 31) || (x.a == 192 && x.b == 168)

abbrev pub accepted : {IoError : Type 0} → Result (TransportError IoError) (Unit {0}) → Bool
accepted (ok u) = true
accepted (err e) = false

octets_of_mapped :
    (x : Ipv4Addr)
    → IsOctets x
    → record {
      a = (x.a * 256 + x.b) / 256;
      b = (x.a * 256 + x.b) % 256;
      c = (x.c * 256 + x.d) / 256;
      d = (x.c * 256 + x.d) % 256;
    }
      ≡ x
octets_of_mapped x h = ground arith

is_blocked-mapped : (x : Ipv4Addr) → IsOctets x → is_blocked (v6 (mapped x)) ≡ is_blocked (v4 x)
unfolding is_blocked
is_blocked-mapped x h = ap is_blocked_v4 (octets_of_mapped x h)

private-allowed :
    (x : Ipv4Addr) → is_private x ≡ true → (is_blocked_v4 x ≡ false) × (v4_is_loopback x ≡ false)
unfolding is_blocked_v4
private-allowed x h = ground arith

module _ (IoError : Type 0) where
  accepted_if :
      (b : Bool) (e : TransportError IoError) → accepted (if b then err e else ok tt) ≡ not b
  accepted_if true e = refl
  accepted_if false e = refl

  strict_judges :
      (address : IpAddr)
      → accepted (validate_printer_ip {IoError = IoError} address strict) ≡ not (is_blocked address)
  unfolding validate_printer_ip
  strict_judges address = accepted_if (is_blocked address) (blocked_address address)

  -- Under the strict policy an IPv4 address and its IPv6-mapped form are judged alike: writing an
  -- address in the mapped form does not get it past the policy.
  pub validate_printer_ip-mapped :
      (x : Ipv4Addr)
      → IsOctets x
      → accepted (validate_printer_ip {IoError = IoError} (v6 (mapped x)) strict)
        ≡ accepted (validate_printer_ip {IoError = IoError} (v4 x) strict)
  validate_printer_ip-mapped x h =
      strict_judges (v6 (mapped x)) ∙ ap not (is_blocked-mapped x h) ∙ sym (strict_judges (v4 x))

  -- A link-local address, such as the metadata service's 169.254.169.254, is refused under every
  -- policy, in both forms.
  pub validate_printer_ip_link_local :
      (c d : ℕ) (policy : AddressPolicy)
      → c < 256
      → d < 256
      → let x : Ipv4Addr = record { a = 169; b = 254; c = c; d = d } in
        (validate_printer_ip {IoError = IoError} (v4 x) policy ≡ err (blocked_address (v4 x)))
        × (validate_printer_ip {IoError = IoError} (v6 (mapped x)) policy
            ≡ err (blocked_address (v6 (mapped x))))
  unfolding validate_printer_ip
  validate_printer_ip_link_local c d policy hc hd = (rw and-false, rw and-false)

  -- Private addresses pass under every policy.
  pub validate_printer_ip_private :
      (x : Ipv4Addr) (policy : AddressPolicy)
      → is_private x ≡ true
      → validate_printer_ip {IoError = IoError} (v4 x) policy ≡ ok tt
  unfolding validate_printer_ip
  validate_printer_ip_private x policy h =
      let (open_v4, not_loopback) = private-allowed x h in rw (open_v4, not_loopback, and-false)

  -- What `resolve` establishes of the addresses that it returns.
  validate_all_sound :
      (addresses : List SocketAddr) (policy : AddressPolicy)
      → validate_all {IoError = IoError} addresses policy ≡ ok tt
      → All (λ s. validate_printer_ip {IoError = IoError} s.ip policy ≡ ok tt) addresses
  unfolding validate_all
  validate_all_sound [] policy h = tt
  validate_all_sound (s ∷ addresses) policy h =
      let (u, first, rest) =
        >>=-eq-ok (validate_printer_ip s.ip policy) (λ u. validate_all addresses policy) h in
      (first, validate_all_sound addresses policy rest)

  looked_up-ok :
      (endpoint : PrinterEndpoint) (answer : Option (List SocketAddr)) (found : List SocketAddr)
      → looked_up {IoError = IoError} endpoint answer ≡ ok found
      → answer ≡ some found
  looked_up-ok endpoint none found h = cc
  looked_up-ok endpoint (some xs) found h = ap some (ok-injective h)

  -- If `resolve` succeeds, the port is not privileged, there is an address, the addresses are those
  -- of the lookup, and each of them passes the policy.
  pub resolve_sound :
      (lookup_host : PrinterEndpoint → Option (List SocketAddr)) (endpoint : PrinterEndpoint)
      (policy : AddressPolicy) (addresses : List SocketAddr)
      → resolve {IoError = IoError} lookup_host endpoint policy ≡ ok addresses
      → (min_printer_port ≤ endpoint.port)
        × (is_nonempty addresses ≡ true)
        × (lookup_host endpoint ≡ some addresses)
        × All (λ s. validate_printer_ip {IoError = IoError} s.ip policy ≡ ok tt) addresses
  unfolding resolve
  resolve_sound lookup_host endpoint policy addresses h =
      let (port_ok, h1) = guard-eq-ok (leb min_printer_port endpoint.port) _ _ h in
      let (found, looked, h2) = >>=-eq-ok (looked_up endpoint (lookup_host endpoint)) _ h1 in
      let (some_found, h3) = guard-eq-ok (is_nonempty found) _ _ h2 in
      let (u, valid, h4) = >>=-eq-ok (validate_all found policy) _ h3 in
      subst
        (λ xs.
          (min_printer_port ≤ endpoint.port)
          × (is_nonempty xs ≡ true)
          × (lookup_host endpoint ≡ some xs)
          × All (λ s. validate_printer_ip {IoError = IoError} s.ip policy ≡ ok tt) xs)
        (ok-injective h4)
        (
          ground arith,
          some_found,
          looked_up-ok endpoint (lookup_host endpoint) found looked,
          validate_all_sound found policy valid,
        )
