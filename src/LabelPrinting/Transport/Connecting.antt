-- ===== src/LabelPrinting/Transport/Connecting.antt =====
-- Which address a connection is made to, what is reported if there is none, and the status exchange.
use lab_inventory.Common.{
  ℕ, ◌≤◌, ◌≡◌, refl, ap, ◌∙◌, Bool, true, false, Option, none, some, List, [], ◌∷◌, ◌++◌, arith,
  ltb, length, All, ok, err, >>=-eq-ok, ok-injective,
}
use lab_inventory.LabelPrinting.{min_printer_port}
use lab_inventory.LabelPrinting.Status.{PrinterStatus, parse, report, status_block_len}
use lab_inventory.LabelPrinting.Transport.{
  SocketAddr, AddressPolicy, PrinterEndpoint, TransportError, Attempt, connected, failed, timed_out,
  Wire, done, validate_printer_ip, resolve, gives_up, connect_loop, connect, request_status,
  status_message, unreachable, timeout,
}
use lab_inventory.LabelPrinting.Transport.Policy.{resolve_sound}

module _ {Stream IoError : Type 0} where
  abbrev pub connects : Attempt Stream IoError → Bool
  connects (connected stream) = true
  connects (failed error) = false
  connects timed_out = false

  -- The report of one failed attempt.
  abbrev pub report_of : PrinterEndpoint → Attempt Stream IoError → TransportError IoError
  report_of endpoint (failed error) = unreachable endpoint error
  report_of endpoint _ = timeout

  -- `stream` was made to an address of the list, and no address before it connected.
  pub record IsFirst (attempt : SocketAddr → Attempt Stream IoError) (addresses : List SocketAddr)
      (stream : Stream) : Type 0 where
    pub before : List SocketAddr
    pub address : SocketAddr
    pub after : List SocketAddr
    pub split : addresses ≡ before ++ address ∷ after
    pub made : attempt address ≡ connected stream
    pub none_before : All (λ s. connects (attempt s) ≡ false) before

module _ {Stream IoError : Type 0} (attempt : SocketAddr → Attempt Stream IoError)
    (endpoint : PrinterEndpoint) where
  IsFirst-skip :
      {s : SocketAddr} {addresses : List SocketAddr} {stream : Stream}
      → connects (attempt s) ≡ false
      → IsFirst attempt addresses stream
      → IsFirst attempt (s ∷ addresses) stream
  IsFirst-skip {s} h first = record {
    before = s ∷ first.before;
    address = first.address;
    after = first.after;
    split = ap (λ xs. s ∷ xs) first.split;
    made = first.made;
    none_before = (h, first.none_before);
  }

  connect_step :
      (s : SocketAddr) (addresses : List SocketAddr) (last : Option IoError) (stream : Stream)
      (outcome : Attempt Stream IoError)
      → attempt s ≡ outcome
      → connect_loop attempt endpoint (s ∷ addresses) last ≡ ok stream
      → ((last' : Option IoError)
          → connect_loop attempt endpoint addresses last' ≡ ok stream
          → IsFirst attempt addresses stream)
      → IsFirst attempt (s ∷ addresses) stream
  unfolding connect_loop
  connect_step s addresses last stream (connected other) e h rest = record {
    before = [];
    address = s;
    after = addresses;
    split = refl;
    made = e ∙ ap connected (ok-injective (rw (e, connect_loop) at h));
    none_before = tt;
  }
  connect_step s addresses last stream (failed error) e h rest =
      IsFirst-skip (rw e) (rest (some error) (rw (e, connect_loop) at h))
  connect_step s addresses last stream timed_out e h rest =
      IsFirst-skip (rw e) (rest none (rw (e, connect_loop) at h))

  connect_loop-IsFirst :
      (addresses : List SocketAddr) (last : Option IoError) (stream : Stream)
      → connect_loop attempt endpoint addresses last ≡ ok stream
      → IsFirst attempt addresses stream
  connect_loop-IsFirst [] none stream h = absurd (unfold connect_loop in cc (h))
  connect_loop-IsFirst [] (some e) stream h = absurd (unfold connect_loop in cc (h))
  connect_loop-IsFirst (s ∷ addresses) last stream h =
      connect_step s addresses last stream (attempt s) refl h
        (λ last' h'. connect_loop-IsFirst addresses last' stream h')

  abbrev error_of : Attempt Stream IoError → Option IoError
  error_of (failed error) = some error
  error_of _ = none

  connect_loop-skip :
      (s : SocketAddr) (addresses : List SocketAddr) (last : Option IoError)
      (outcome : Attempt Stream IoError)
      → attempt s ≡ outcome
      → connects outcome ≡ false
      → connect_loop attempt endpoint (s ∷ addresses) last
        ≡ connect_loop attempt endpoint addresses (error_of outcome)
  unfolding connect_loop
  connect_loop-skip s addresses last (connected stream) e h = cc
  connect_loop-skip s addresses last (failed error) e h = rw (e, connect_loop)
  connect_loop-skip s addresses last timed_out e h = rw (e, connect_loop)

  gives_up-report :
      (outcome : Attempt Stream IoError)
      → connects outcome ≡ false
      → gives_up {Stream = Stream} endpoint (error_of outcome) ≡ err (report_of endpoint outcome)
  unfolding gives_up
  gives_up-report (connected stream) h = cc
  gives_up-report (failed error) h = refl
  gives_up-report timed_out h = refl

  -- If no address of the list connects, the report is that of the last attempt: a timeout there
  -- hides the errors of the attempts before it.
  pub connect_loop_fails :
      (before : List SocketAddr) (s : SocketAddr) (last : Option IoError)
      → All (λ a. connects (attempt a) ≡ false) (before ++ s ∷ [])
      → connect_loop attempt endpoint (before ++ s ∷ []) last ≡ err (report_of endpoint (attempt s))
  connect_loop_fails [] s last h =
      connect_loop-skip s [] last (attempt s) refl h.0
      ∙ (unfold connect_loop in gives_up-report (attempt s) h.0)
  connect_loop_fails (a ∷ before) s last h =
      connect_loop-skip a (before ++ s ∷ []) last (attempt a) refl h.0
      ∙ connect_loop_fails before s (error_of (attempt a)) h.1

module _ {Stream IoError : Type 0} where
  -- A successful `connect` is to the first address of the lookup that connects, on a port that is
  -- not privileged, and only after every address of the lookup has passed the policy.
  pub connect_sound :
      (lookup_host : PrinterEndpoint → Option (List SocketAddr))
      (attempt : SocketAddr → Attempt Stream IoError) (endpoint : PrinterEndpoint)
      (policy : AddressPolicy) (stream : Stream)
      → connect lookup_host attempt endpoint policy ≡ ok stream
      → (addresses : List SocketAddr) × (lookup_host endpoint ≡ some addresses)
        × (min_printer_port ≤ endpoint.port)
        × All (λ s. validate_printer_ip {IoError = IoError} s.ip policy ≡ ok tt) addresses
        × IsFirst attempt addresses stream
  unfolding connect
  connect_sound lookup_host attempt endpoint policy stream h =
      let (addresses, resolved, h1) = >>=-eq-ok (resolve lookup_host endpoint policy) _ h in
      let (port_ok, nonempty, looked, valid) =
        resolve_sound IoError lookup_host endpoint policy addresses resolved in
      (
        addresses,
        looked,
        port_ok,
        valid,
        connect_loop-IsFirst attempt endpoint addresses none stream h1,
      )

module _ {IoError : Type 0} where
  -- Where the write goes through and the read fills the 32-byte block, the status request returns
  -- the parsed block.
  pub request_status-parse :
      (self : Wire IoError) (block : List ℕ)
      → self.write_all status_message ≡ done tt
      → self.read_exact status_message ≡ done block
      → length block ≡ status_block_len
      → (status : PrinterStatus) × (request_status self ≡ ok status) × (parse block ≡ ok status)
  unfolding request_status parse
  request_status-parse self block w r l =
      let long : ltb (length block) status_block_len ≡ false = ground arith in
      (report block, rw (w, r, long), rw long)
