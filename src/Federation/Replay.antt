-- ===== src/Federation/Replay.antt =====
-- A request that was accepted is refused from then on, for as long as its nonce is kept:
-- `verify_inbound_request` and `remember_nonce` of backend/src/routes/federation.
use text.Mathlib.Text.{◌==◌ as str_eq}
use text.Mathlib.TextEquality.{eq_iff}
use lab_inventory.Common.{
  ℕ, ◌+◌, ◌<◌, ◌≡◌, ◌≢◌, refl, sym, ap, ◌∙◌, arith, String, Bool, true, false, ◌&&◌, ◌||◌, List, [],
  ◌∷◌, ◌==◌, ==_refl, leb, Bool-cases, inl, inr, Result, ok, err, >>=-eq-ok, ok-injective,
}
use lab_inventory.Federation.{
  Settings, Store, NonceRow, SecurityError, Crypto, Formats, Headers, HttpRequest, InboundContext,
}
use lab_inventory.Federation.Signing.{required_header, parse_header}
use lab_inventory.Federation.Nonces.{
  delete_expired_nonces, nonce_taken, insert_nonce, remembered, remember_nonce,
}
use lab_inventory.Federation.Inbound.{
  Clock, InboundHeaders, read_headers, check_headers, with_nonce, spend_nonce, verify_headers,
  verify_inbound_request,
}
use lab_inventory.Federation.Genuine.{verify_inbound_request-IsAccepted}

-- The nonce of the node is kept until then, at least.
holds_until : ℕ → ℕ → String → List NonceRow → Bool
holds_until time node_id nonce [] = false
holds_until time node_id nonce (row ∷ rows) =
    (row.remote_node_id == node_id && str_eq row.nonce nonce && leb time row.expires_at)
    || holds_until time node_id nonce rows

holds_until-taken :
    (time node_id : ℕ) (nonce : String) (rows : List NonceRow)
    → holds_until time node_id nonce rows ≡ true
    → nonce_taken node_id nonce rows ≡ true
unfolding holds_until nonce_taken
holds_until-taken time node_id nonce [] h = cc
holds_until-taken time node_id nonce (row ∷ rows) h =
    ground (arith, holds_until-taken time node_id nonce rows)

holds_until-delete_expired_nonces :
    (time now node_id : ℕ) (nonce : String) (rows : List NonceRow)
    → now < time
    → holds_until time node_id nonce rows ≡ true
    → holds_until time node_id nonce (delete_expired_nonces now rows) ≡ true
unfolding holds_until delete_expired_nonces
holds_until-delete_expired_nonces time now node_id nonce [] before h = h
holds_until-delete_expired_nonces time now node_id nonce (row ∷ rows) before h =
    ground (arith, holds_until-delete_expired_nonces time now node_id nonce rows before)

holds_until-insert_nonce :
    (time now node_id node_id' : ℕ) (nonce nonce' : String) (ttl_seconds : ℕ) (rows : List NonceRow)
    → holds_until time node_id nonce rows ≡ true
    → holds_until time node_id nonce
        (remembered rows (insert_nonce now node_id' nonce' ttl_seconds rows)).0
      ≡ true
unfolding holds_until insert_nonce
holds_until-insert_nonce time now node_id node_id' nonce nonce' ttl_seconds rows h = ground arith

holds_until_first :
    (time node_id : ℕ) (nonce : String) (rows : List NonceRow)
    → holds_until time node_id nonce
        (record { remote_node_id = node_id; nonce = nonce; expires_at = time } ∷ rows)
      ≡ true
unfolding holds_until
holds_until_first time node_id nonce rows =
    let here : leb time time ≡ true = ground arith in
    rw (==_refl node_id, (eq_iff nonce nonce).1 refl, here)

module _ (crypto : Crypto) (format : Formats) (settings : Settings) where
  holds_until-with_nonce :
      (context : InboundContext) (store : Store)
      (p : List NonceRow × Result SecurityError (Unit {0}))
      → (with_nonce context store p).0.nonces ≡ p.0
  holds_until-with_nonce context store (rows, ok done) = refl
  holds_until-with_nonce context store (rows, err e) = refl

  holds_until-spend_nonce :
      (time node_id : ℕ) (nonce : String) (clock : Clock) (store : Store) (said : InboundHeaders)
      (checked : Result SecurityError InboundContext)
      → clock.swept_at < time
      → holds_until time node_id nonce store.nonces ≡ true
      → holds_until time node_id nonce
          (spend_nonce crypto format settings clock store said checked).0.nonces
        ≡ true
  unfolding remember_nonce
  holds_until-spend_nonce time node_id nonce clock store said (err e) before h = h
  holds_until-spend_nonce time node_id nonce clock store said (ok context) before h =
      rw
        (holds_until-with_nonce context store (
          remember_nonce clock.swept_at clock.stored_at said.remote_node_id said.nonce
            settings.request_ttl_seconds store.nonces))
        (holds_until-insert_nonce time clock.stored_at node_id said.remote_node_id nonce said.nonce
          settings.request_ttl_seconds (delete_expired_nonces clock.swept_at store.nonces)
          (holds_until-delete_expired_nonces time clock.swept_at node_id nonce store.nonces before
            h))

  holds_until-verify_headers :
      (time node_id : ℕ) (nonce : String) (clock : Clock) (laboratory_id : ℕ) (req : HttpRequest)
      (store : Store) (read : Result SecurityError InboundHeaders)
      → clock.swept_at < time
      → holds_until time node_id nonce store.nonces ≡ true
      → holds_until time node_id nonce
          (verify_headers crypto format settings clock laboratory_id req store read).0.nonces
        ≡ true
  holds_until-verify_headers time node_id nonce clock laboratory_id req store (err e) before h = h
  holds_until-verify_headers time node_id nonce clock laboratory_id req store (ok said) before h =
      holds_until-spend_nonce time node_id nonce clock store said
        (check_headers crypto format settings clock.now laboratory_id req store said) before h

  holds_until-verify_inbound_request :
      (time node_id : ℕ) (nonce : String) (clock : Clock) (laboratory_id : ℕ) (req : HttpRequest)
      (store : Store)
      → clock.swept_at < time
      → holds_until time node_id nonce store.nonces ≡ true
      → holds_until time node_id nonce
          (verify_inbound_request crypto format settings clock laboratory_id req store).0.nonces
        ≡ true
  unfolding verify_inbound_request
  holds_until-verify_inbound_request time node_id nonce clock laboratory_id req store before h =
      elim (Bool-cases settings.enabled) [
        | inl on ↦ rw on (
            holds_until-verify_headers time node_id nonce clock laboratory_id req store
              (read_headers format req.headers) before h)
        | inr off ↦ rw off h
      ]

  -- The stores after a store: any requests are verified, accepted or not, while the database's time
  -- is before the given one, and nodes and trusts change.
  pub data Later (time : ℕ) (start : Store) : Store → Type 0 where
    here : Later time start start
    verified :
        {store : Store} (clock : Clock) (laboratory_id : ℕ) (req : HttpRequest)
        → Later time start store
        → clock.swept_at < time
        → Later time start
            (verify_inbound_request crypto format settings clock laboratory_id req store).0
    paired :
        {store store' : Store}
        → Later time start store
        → store'.nonces ≡ store.nonces
        → Later time start store'

  holds_until-Later :
      (time node_id : ℕ) (nonce : String) {start store : Store}
      → Later time start store
      → holds_until time node_id nonce start.nonces ≡ true
      → holds_until time node_id nonce store.nonces ≡ true
  holds_until-Later time node_id nonce here h = h
  holds_until-Later time node_id nonce (verified {store} clock laboratory_id req later before) h =
      holds_until-verify_inbound_request time node_id nonce clock laboratory_id req store before
        (holds_until-Later time node_id nonce later h)
  holds_until-Later time node_id nonce (paired later same) h =
      rw same (holds_until-Later time node_id nonce later h)

  read_headers-eq-ok :
      (headers : Headers) (said : InboundHeaders)
      → read_headers format headers ≡ ok said
      → (parse_header format.parse_uuid headers "x-federation-node-id" ≡ ok said.remote_node_id)
        × (required_header headers "x-federation-nonce" ≡ ok said.nonce)
  unfolding read_headers
  read_headers-eq-ok headers said h =
      let (node, h_node, h1) =
        >>=-eq-ok (parse_header format.parse_uuid headers "x-federation-node-id") _ h in
      let (version, _, h2) =
        >>=-eq-ok (parse_header format.parse_i32 headers "x-federation-key-version") _ h1 in
      let (timestamp, _, h3) =
        >>=-eq-ok (parse_header format.parse_i64 headers "x-federation-timestamp") _ h2 in
      let (nonce, h_nonce, h4) = >>=-eq-ok (required_header headers "x-federation-nonce") _ h3 in
      let (signature, _, h5) = >>=-eq-ok (required_header headers "x-federation-signature") _ h4 in
      let (laboratory, _, h6) =
        >>=-eq-ok (parse_header format.parse_uuid headers "x-federation-remote-laboratory-id") _
          h5 in
      let (user, _, h7) =
        >>=-eq-ok (parse_header format.parse_uuid headers "x-federation-remote-user-id") _ h6 in
      let (username, _, h8) =
        >>=-eq-ok (required_header headers "x-federation-remote-username") _ h7 in
      let (user_type, _, h9) =
        >>=-eq-ok (required_header headers "x-federation-remote-user-type") _ h8 in
      let same = ok-injective h9 in
      (h_node ∙ ap (λ s. ok s.remote_node_id) same, h_nonce ∙ ap (λ s. ok s.nonce) same)

  -- Once a request was accepted, no request with its node id and its nonce is accepted, in any store
  -- that follows, while the time of the database is less than the time to live after the nonce was stored.
  pub replay_refused :
      (clock clock' : Clock) (laboratory_id laboratory_id' : ℕ) (req req' : HttpRequest)
      (store accepted store' : Store) (context context' : InboundContext)
      → verify_inbound_request crypto format settings clock laboratory_id req store
        ≡ (accepted, ok context)
      → Later (clock.stored_at + settings.request_ttl_seconds) accepted store'
      → clock'.swept_at < clock.stored_at + settings.request_ttl_seconds
      → req'.headers "x-federation-node-id" ≡ req.headers "x-federation-node-id"
      → req'.headers "x-federation-nonce" ≡ req.headers "x-federation-nonce"
      → (verify_inbound_request crypto format settings clock' laboratory_id' req' store').1
        ≢ ok context'
  replay_refused clock clock' laboratory_id laboratory_id' req req' store accepted store' context
        context' h later before same_node same_nonce again =
      let until = clock.stored_at + settings.request_ttl_seconds in
      let first =
        verify_inbound_request-IsAccepted crypto format settings clock laboratory_id req store
          accepted context h in
      let second =
        verify_inbound_request-IsAccepted crypto format settings clock' laboratory_id' req' store'
          (verify_inbound_request crypto format settings clock' laboratory_id' req' store').0
          context'
          (ap
            (λ r. (
              (verify_inbound_request crypto format settings clock' laboratory_id' req' store').0,
              r,
            ))
            again) in
      let (node, nonce) = read_headers-eq-ok req.headers first.said first.headers in
      let (node', nonce') = read_headers-eq-ok req'.headers second.said second.headers in
      let stored =
        ap (holds_until until first.said.remote_node_id first.said.nonce) first.spent.stored
        ∙ holds_until_first until first.said.remote_node_id first.said.nonce _ in
      let kept =
        holds_until-delete_expired_nonces until clock'.swept_at first.said.remote_node_id
          first.said.nonce store'.nonces before
          (holds_until-Later until first.said.remote_node_id first.said.nonce later stored) in
      let taken = holds_until-taken until first.said.remote_node_id first.said.nonce _ kept in
      let one_node : first.said.remote_node_id ≡ second.said.remote_node_id =
        ok-injective (sym node ∙ rw same_node refl ∙ node') in
      let one_nonce : first.said.nonce ≡ second.said.nonce =
        ok-injective (sym nonce ∙ rw same_nonce refl ∙ nonce') in
      let unused = second.spent.unused in
      let clash =
        ap
          (λ n.
            nonce_taken n second.said.nonce (delete_expired_nonces clock'.swept_at store'.nonces))
          one_node
        ∙ unused in
      let clash' =
        ap
          (λ n.
            nonce_taken first.said.remote_node_id n
              (delete_expired_nonces clock'.swept_at store'.nonces))
          one_nonce
        ∙ clash in
      let both = sym taken ∙ clash' in cc
