-- ===== src/LabelPrinting/Transport.antt =====
-- backend/src/label_printing/transport.rs: the address policy, name resolution, and a session with a
-- printer. The tests on addresses are those of `std::net`. What the network does is an argument:
-- the answer of `lookup_host`, and for each address the outcome of the connection attempt.
pub mod Policy
pub mod Connecting
mod Tests
use lab_inventory.Common.{
  ℕ, ◌+◌, ◌*◌, ◌/◌, ◌%◌, bit_and, String, Bool, true, false, ◌&&◌, ◌||◌, Option, none, some, List,
  [], ◌∷◌, ◌++◌, ltb, leb, ◌==◌, if◌then◌else◌, length, replicate, Result, ok, err, ◌>>=◌, ◌>>◌,
  guard,
}
use lab_inventory.LabelPrinting.{invalidate_bytes, min_printer_port}
use lab_inventory.LabelPrinting.Raster.Job.{status_request}
use lab_inventory.LabelPrinting.Status.{PrinterStatus, StatusError, parse}

-- The four octets, and the eight segments.
pub record Ipv4Addr : Type 0 where
  pub a : ℕ
  pub b : ℕ
  pub c : ℕ
  pub d : ℕ

pub record Ipv6Addr : Type 0 where
  pub s0 : ℕ
  pub s1 : ℕ
  pub s2 : ℕ
  pub s3 : ℕ
  pub s4 : ℕ
  pub s5 : ℕ
  pub s6 : ℕ
  pub s7 : ℕ

pub data IpAddr : Type 0 where
  v4 : Ipv4Addr → IpAddr
  v6 : Ipv6Addr → IpAddr

pub record SocketAddr : Type 0 where
  pub ip : IpAddr
  pub port : ℕ

-- The tests of `std::net::Ipv4Addr`.
abbrev pub v4_is_loopback : Ipv4Addr → Bool
v4_is_loopback x = x.a == 127

abbrev pub v4_is_link_local : Ipv4Addr → Bool
v4_is_link_local x = x.a == 169 && x.b == 254

abbrev pub v4_is_unspecified : Ipv4Addr → Bool
v4_is_unspecified x = x.a == 0 && x.b == 0 && x.c == 0 && x.d == 0

abbrev pub v4_is_broadcast : Ipv4Addr → Bool
v4_is_broadcast x = x.a == 255 && x.b == 255 && x.c == 255 && x.d == 255

abbrev pub v4_is_multicast : Ipv4Addr → Bool
v4_is_multicast x = leb 224 x.a && leb x.a 239

abbrev pub v4_is_documentation : Ipv4Addr → Bool
v4_is_documentation x =
    (x.a == 192 && x.b == 0 && x.c == 2)
    || (x.a == 198 && x.b == 51 && x.c == 100)
    || (x.a == 203 && x.b == 0 && x.c == 113)

-- The tests of `std::net::Ipv6Addr`.
abbrev pub high_zero : Ipv6Addr → Bool
high_zero x = x.s0 == 0 && x.s1 == 0 && x.s2 == 0 && x.s3 == 0 && x.s4 == 0

abbrev pub v6_is_loopback : Ipv6Addr → Bool
v6_is_loopback x = high_zero x && x.s5 == 0 && x.s6 == 0 && x.s7 == 1

abbrev pub v6_is_unspecified : Ipv6Addr → Bool
v6_is_unspecified x = high_zero x && x.s5 == 0 && x.s6 == 0 && x.s7 == 0

abbrev pub v6_is_multicast : Ipv6Addr → Bool
v6_is_multicast x = x.s0 / 256 == 0xff

abbrev pub to_ipv4_mapped : Ipv6Addr → Option Ipv4Addr
to_ipv4_mapped x =
    if high_zero x && x.s5 == 0xffff
    then some (record { a = x.s6 / 256; b = x.s6 % 256; c = x.s7 / 256; d = x.s7 % 256 })
    else none

abbrev pub is_loopback : IpAddr → Bool
is_loopback (v4 x) = v4_is_loopback x
is_loopback (v6 x) = v6_is_loopback x

pub record AddressPolicy : Type 0 where
  pub allow_loopback : Bool

abbrev pub strict : AddressPolicy
strict = record { allow_loopback = false }

abbrev pub permissive : AddressPolicy
permissive = record { allow_loopback = true }

pub record PrinterEndpoint : Type 0 where
  pub host : String
  pub port : ℕ

-- An address and an endpoint stand for their printed forms.
pub data TransportError (IoError : Type 0) : Type 0 where
  blocked_address : IpAddr → TransportError IoError
  blocked_port : ℕ → TransportError IoError
  unresolvable : String → TransportError IoError
  unreachable : PrinterEndpoint → IoError → TransportError IoError
  io : IoError → TransportError IoError
  timeout : TransportError IoError
  status : StatusError → TransportError IoError

unfoldable pub is_blocked_v4 : Ipv4Addr → Bool
is_blocked_v4 x =
    v4_is_loopback x
    || v4_is_link_local x
    || v4_is_unspecified x
    || v4_is_broadcast x
    || v4_is_multicast x
    || v4_is_documentation x

unfoldable pub is_blocked_v6 : Ipv6Addr → Bool
is_blocked_v6 x =
    let link_local = bit_and x.s0 0xffc0 == 0xfe80 in
    v6_is_loopback x || v6_is_unspecified x || v6_is_multicast x || link_local

blocked_mapped : Option Ipv4Addr → Ipv6Addr → Bool
unfolding is_blocked_v4 is_blocked_v6
blocked_mapped (some mapped) x = is_blocked_v4 mapped
blocked_mapped none x = is_blocked_v6 x

is_blocked : IpAddr → Bool
unfolding blocked_mapped
is_blocked (v4 x) = is_blocked_v4 x
is_blocked (v6 x) = blocked_mapped (to_ipv4_mapped x) x

abbrev pub is_nonempty : List SocketAddr → Bool
is_nonempty [] = false
is_nonempty (x ∷ xs) = true

module _ {IoError : Type 0} where
  unfoldable pub validate_printer_ip :
      IpAddr → AddressPolicy → Result (TransportError IoError) (Unit {0})
  unfolding is_blocked
  validate_printer_ip address policy =
      if policy.allow_loopback && is_loopback address
      then ok tt
      else if is_blocked address
      then err (blocked_address address)
      else ok tt

  -- `for address in &addresses { validate_printer_ip(address.ip(), policy)?; }`
  validate_all : List SocketAddr → AddressPolicy → Result (TransportError IoError) (Unit {0})
  unfolding validate_printer_ip
  validate_all [] policy = ok tt
  validate_all (address ∷ addresses) policy = do
    validate_printer_ip address.ip policy
    validate_all addresses policy

  -- The answer of a failed lookup is `none`.
  abbrev pub looked_up :
      PrinterEndpoint → Option (List SocketAddr) → Result (TransportError IoError) (List SocketAddr)
  looked_up endpoint none = err (unresolvable endpoint.host)
  looked_up endpoint (some addresses) = ok addresses

  unfoldable pub resolve :
      (PrinterEndpoint → Option (List SocketAddr))
      → PrinterEndpoint
      → AddressPolicy
      → Result (TransportError IoError) (List SocketAddr)
  unfolding validate_all
  resolve lookup_host endpoint policy = do
    guard (leb min_printer_port endpoint.port) (blocked_port endpoint.port)
    addresses ← looked_up endpoint (lookup_host endpoint)
    guard (is_nonempty addresses) (unresolvable endpoint.host)
    validate_all addresses policy
    ok addresses

-- The outcome of `timeout(CONNECT_TIMEOUT, TcpStream::connect(address))`.
pub data Attempt (Stream IoError : Type 0) : Type 0 where
  connected : Stream → Attempt Stream IoError
  failed : IoError → Attempt Stream IoError
  timed_out : Attempt Stream IoError

module _ {Stream IoError : Type 0} where
  gives_up : PrinterEndpoint → Option IoError → Result (TransportError IoError) Stream
  gives_up endpoint none = err timeout
  gives_up endpoint (some source) = err (unreachable endpoint source)

  -- The loop over the resolved addresses, with `last_error`.
  pub connect_loop :
      (SocketAddr → Attempt Stream IoError)
      → PrinterEndpoint
      → List SocketAddr
      → Option IoError
      → Result (TransportError IoError) Stream
  unfolding gives_up
  connect_loop attempt endpoint [] last_error = gives_up endpoint last_error
  connect_loop attempt endpoint (address ∷ addresses) last_error = elim (attempt address) [
    | connected stream ↦ ok stream
    | failed error ↦ connect_loop attempt endpoint addresses (some error)
    | timed_out ↦ connect_loop attempt endpoint addresses none
  ]

  unfoldable pub connect :
      (PrinterEndpoint → Option (List SocketAddr))
      → (SocketAddr → Attempt Stream IoError)
      → PrinterEndpoint
      → AddressPolicy
      → Result (TransportError IoError) Stream
  unfolding connect_loop
  connect lookup_host attempt endpoint policy = do
    addresses ← resolve lookup_host endpoint policy
    connect_loop attempt endpoint addresses none

-- An operation of the stream under a timeout.
pub data Io (A IoError : Type 0) : Type 0 where
  done : A → Io A IoError
  broken : IoError → Io A IoError
  expired : Io A IoError

-- A stream: what writing some bytes does, and what a read of a status block after them gives.
pub record Wire (IoError : Type 0) : Type 0 where
  pub write_all : List ℕ → Io (Unit {0}) IoError
  pub read_exact : List ℕ → Io (List ℕ) IoError

-- The reset, and the request for a status block.
abbrev pub status_message : List ℕ
status_message = replicate invalidate_bytes 0 ++ 0x1B ∷ b'@' ∷ status_request

module _ {IoError : Type 0} where
  -- `.map_err(|_| Timeout)??`
  abbrev pub within_time : {A : Type 0} → Io A IoError → Result (TransportError IoError) A
  within_time (done a) = ok a
  within_time (broken e) = err (io e)
  within_time expired = err timeout

  abbrev pub status_result : {A : Type 0} → Result StatusError A → Result (TransportError IoError) A
  status_result (ok a) = ok a
  status_result (err e) = err (status e)

  -- `PrinterConnection::write` and `write_job`
  unfoldable pub write_job : Wire IoError → List ℕ → Result (TransportError IoError) (Unit {0})
  write_job self payload = within_time (self.write_all payload)

  -- `PrinterConnection::request_status`
  unfoldable pub request_status : Wire IoError → Result (TransportError IoError) PrinterStatus
  unfolding write_job
  request_status self = do
    write_job self status_message
    block ← within_time (self.read_exact status_message)
    status_result (parse block)

  -- `send_job` and `query_status`: `open` is `connect`.
  unfoldable pub send_job :
      (PrinterEndpoint → Option (List SocketAddr))
      → (SocketAddr → Attempt (Wire IoError) IoError)
      → PrinterEndpoint
      → AddressPolicy
      → List ℕ
      → Result (TransportError IoError) (Unit {0})
  send_job lookup_host attempt endpoint policy payload = do
    connection ← connect lookup_host attempt endpoint policy
    write_job connection payload

  unfoldable pub query_status :
      (PrinterEndpoint → Option (List SocketAddr))
      → (SocketAddr → Attempt (Wire IoError) IoError)
      → PrinterEndpoint
      → AddressPolicy
      → Result (TransportError IoError) PrinterStatus
  query_status lookup_host attempt endpoint policy = do
    connection ← connect lookup_host attempt endpoint policy
    request_status connection
