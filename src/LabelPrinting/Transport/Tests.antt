-- ===== src/LabelPrinting/Transport/Tests.antt =====
-- The transport theorems at concrete addresses, over a network with concrete answers.
use lab_inventory.Common.{
  ℕ, ◌≤◌, ◌≡◌, refl, Option, some, List, [], ◌∷◌, ◌==◌, All, replicate, if◌then◌else◌, ok,
}
use lab_inventory.LabelPrinting.{min_printer_port}
use lab_inventory.LabelPrinting.Transport.{
  resolve, Ipv4Addr, v4, v6, SocketAddr, strict, PrinterEndpoint, Attempt, connected, failed,
  timed_out, Wire, done, validate_printer_ip, connect, connect_loop,
}
use lab_inventory.LabelPrinting.Transport.Connecting.{IsFirst, connect_sound}

abbrev lan : Ipv4Addr
lan = record { a = 192; b = 168; c = 1; d = 50 }

abbrev lan_two : Ipv4Addr
lan_two = record { a = 10; b = 0; c = 0; d = 7 }

abbrev addresses : List SocketAddr
addresses = record { ip = v4 lan; port = 9100 } ∷ record { ip = v4 lan_two; port = 9100 } ∷ []

abbrev endpoint : PrinterEndpoint
endpoint = record { host = "printer"; port = 9100 }

abbrev lookup_host : PrinterEndpoint → Option (List SocketAddr)
lookup_host e = some addresses

-- The first octet decides: 10.x connects, all else is refused with error 111.
abbrev refuse_first : SocketAddr → Attempt ℕ ℕ
refuse_first s = elim s.ip [
  | v4 x ↦ if x.a == 10 then connected 3 else failed 111
  | v6 x ↦ timed_out
]

-- 192.x is refused, and 10.x does not answer in time.
abbrev none_connects : SocketAddr → Attempt ℕ ℕ
none_connects s = elim s.ip [
  | v4 x ↦ if x.a == 10 then timed_out else failed 111
  | v6 x ↦ timed_out
]

connects_second : connect lookup_host refuse_first endpoint strict ≡ ok 3
unfolding connect resolve connect_loop
connects_second = refl

connect_sound_example :
    (found : List SocketAddr) × (lookup_host endpoint ≡ some found)
    × (min_printer_port ≤ endpoint.port)
    × All (λ s. validate_printer_ip {IoError = ℕ} s.ip strict ≡ ok tt) found
    × IsFirst refuse_first found 3
connect_sound_example = connect_sound lookup_host refuse_first endpoint strict 3 connects_second

abbrev silent_printer : Wire ℕ
silent_printer = record {
  write_all = λ bytes. done tt;
  read_exact = λ bytes. done (replicate 32 0);
}
