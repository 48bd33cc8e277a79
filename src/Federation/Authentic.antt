-- ===== src/Federation/Authentic.antt =====
-- What `verify_inbound_request` of backend/src/routes/federation/security.rs has established of a
-- request that it accepts, in terms of the stored rows, the numbers of the clock and the signed text.
use Prim.Native.String.{◌++◌ as str_append}
use text.Mathlib.TextEquality.{eq_iff}
use mathlib.Core.Option.{some-injective}
use lab_inventory.Common.{
  ℕ, ◌+◌, ◌^◌, ◌≤◌, ◌<◌, ◌≡◌, sym, ap, ◌∙◌, String, Option, some, List, [], ◌∷◌, ◌==◌, ==_iff, ◌⊎◌,
  inl, inr, Bool-cases, ok, >>=-eq-ok, ok_or-eq-ok, ok-injective, and-eq-true, Among, true,
}
use lab_inventory.Federation.{
  Settings, Store, RemoteNodeRow, TrustRow, Crypto, Formats, Headers, HttpRequest, InboundContext,
}
use lab_inventory.Federation.Signing.{sha256_hex, sign_canonical, parse_header, required_header}
use lab_inventory.Federation.Inbound.{
  Clock, fetch_remote_node, is_active_trust, fetch_active_trust, path_of, InboundHeaders,
  read_headers, expected_signature, verify_inbound_request,
}
use lab_inventory.Federation.Freshness.{is_fresh_bounds}
use lab_inventory.Federation.Genuine.{IsSpent, verify_inbound_request-IsAccepted}

pub fetch_remote_node-Among :
    (id : ℕ) (rows : List RemoteNodeRow) (row : RemoteNodeRow)
    → fetch_remote_node id rows ≡ some row
    → Among row rows × (row.remote_node_id ≡ id)
unfolding fetch_remote_node
fetch_remote_node-Among id [] row h = cc
fetch_remote_node-Among id (first ∷ rows) row h = elim (Bool-cases (first.remote_node_id == id)) [
  | inl this ↦
      let same = some-injective _ _ (rw this at h) in
      (
        inl (sym same),
        ap (λ r. r.remote_node_id) (sym same) ∙ (==_iff first.remote_node_id id).0 this,
      )
  | inr other ↦
      let (among, named) = fetch_remote_node-Among id rows row (rw other at h) in (inr among, named)
]

-- A trust between the two laboratories that is in force.
pub record IsInForce (l node_id r : ℕ) (trust : TrustRow) : Type 0 where
  pub of_laboratory : trust.local_laboratory_id ≡ l
  pub with_node : trust.remote_node_id ≡ node_id
  pub with_laboratory : trust.remote_laboratory_id ≡ r
  pub active : trust.status ≡ "active"

is_active_trust-IsInForce :
    (l node_id r : ℕ) (trust : TrustRow)
    → is_active_trust l node_id r trust ≡ true
    → IsInForce l node_id r trust
is_active_trust-IsInForce l node_id r trust h =
    let (places, active) = and-eq-true _ _ h in
    let (local_node, far) = and-eq-true _ _ places in
    let (local, node) = and-eq-true _ _ local_node in
    record {
      of_laboratory = (==_iff trust.local_laboratory_id l).0 local;
      with_node = (==_iff trust.remote_node_id node_id).0 node;
      with_laboratory = (==_iff trust.remote_laboratory_id r).0 far;
      active = (eq_iff trust.status "active").0 active;
    }

pub fetch_active_trust-IsInForce :
    (l node_id r : ℕ) (rows : List TrustRow) (trust : TrustRow)
    → fetch_active_trust l node_id r rows ≡ some trust
    → Among trust rows × IsInForce l node_id r trust
unfolding fetch_active_trust
fetch_active_trust-IsInForce l node_id r [] trust h = cc
fetch_active_trust-IsInForce l node_id r (row ∷ rows) trust h =
    elim (Bool-cases (is_active_trust l node_id r row)) [
      | inl this ↦
          let same = some-injective _ _ (rw this at h) in
          (
            inl (sym same),
            is_active_trust-IsInForce l node_id r trust
                (ap (is_active_trust l node_id r) (sym same) ∙ this),
          )
      | inr other ↦
          let (among, holds) =
            fetch_active_trust-IsInForce l node_id r rows trust (rw other at h) in
          (inr among, holds)
    ]

-- Each text on a line of its own.
abbrev lines_after : List String → String
lines_after [] = ""
lines_after (line ∷ lines) = str_append "\n" (str_append line (lines_after lines))

parse_header-eq-ok :
    (parse : String → Option ℕ) (headers : Headers) (name : String) (value : ℕ)
    → parse_header parse headers name ≡ ok value
    → (shown : String) × (parse shown ≡ some value)
parse_header-eq-ok parse headers name value h =
    let (shown, given, h1) = >>=-eq-ok (required_header headers name) _ h in
    (shown, ok_or-eq-ok _ _ _ h1)

module _ (format : Formats) where
  read_headers-timestamp :
      (headers : Headers) (said : InboundHeaders)
      → read_headers format headers ≡ ok said
      → (shown : String) × (format.parse_i64 shown ≡ some said.timestamp)
  unfolding read_headers
  read_headers-timestamp headers said h =
      let (node, _, h1) =
        >>=-eq-ok (parse_header format.parse_uuid headers "x-federation-node-id") _ h in
      let (version, _, h2) =
        >>=-eq-ok (parse_header format.parse_i32 headers "x-federation-key-version") _ h1 in
      let (time, given, h3) =
        >>=-eq-ok (parse_header format.parse_i64 headers "x-federation-timestamp") _ h2 in
      let (nonce, _, h4) = >>=-eq-ok (required_header headers "x-federation-nonce") _ h3 in
      let (signature, _, h5) = >>=-eq-ok (required_header headers "x-federation-signature") _ h4 in
      let (laboratory, _, h6) =
        >>=-eq-ok (parse_header format.parse_uuid headers "x-federation-remote-laboratory-id") _
          h5 in
      let (user, _, h7) =
        >>=-eq-ok (parse_header format.parse_uuid headers "x-federation-remote-user-id") _ h6 in
      let (name, _, h8) = >>=-eq-ok (required_header headers "x-federation-remote-username") _ h7 in
      let (type, _, h9) =
        >>=-eq-ok (required_header headers "x-federation-remote-user-type") _ h8 in
      let (shown, parsed) = parse_header-eq-ok format.parse_i64 headers _ time given in
      (shown, parsed ∙ ap (λ s. some s.timestamp) (ok-injective h9))

module _ (crypto : Crypto) (format : Formats) (settings : Settings) where
  -- The signature in the header is the code, under the secret of the node, of the text that
  -- has these lines.
  pub record IsSigned (req : HttpRequest) (said : InboundHeaders) (node : RemoteNodeRow)
      : Type 0 where
    pub code : List ℕ
    pub given : crypto.decode said.signature ≡ some code
    pub expected :
        crypto.decode (
          crypto.encode (
            crypto.mac node.shared_secret (
              str_append "v1" (
                lines_after (
                  format.to_uppercase req.method
                  ∷ path_of req.path_and_query req.path
                  ∷ sha256_hex crypto req.body
                  ∷ format.show_uuid said.remote_node_id
                  ∷ format.show_uuid said.remote_laboratory_id
                  ∷ format.show_uuid said.remote_user_id
                  ∷ said.remote_user_type
                  ∷ format.show_i64 said.timestamp
                  ∷ said.nonce
                  ∷ format.show_i32 said.key_version
                  ∷ [])))))
        ≡ some code

  pub record IsAuthentic (clock : Clock) (laboratory_id : ℕ) (req : HttpRequest)
      (store store' : Store) (context : InboundContext) : Type 0 where
    pub enabled : settings.enabled ≡ true
    pub said : InboundHeaders
    pub headers : read_headers format req.headers ≡ ok said
    pub node_stored : Among context.remote_node store.nodes
    pub node_named : context.remote_node.remote_node_id ≡ said.remote_node_id
    pub node_active : context.remote_node.status ≡ "active"
    pub key : context.remote_node.key_version ≡ said.key_version
    pub trust : TrustRow
    pub trust_stored : Among trust store.trusts
    pub in_force : IsInForce laboratory_id said.remote_node_id said.remote_laboratory_id trust
    pub laboratory : context.remote_laboratory_id ≡ said.remote_laboratory_id
    pub user : context.remote_user_id ≡ said.remote_user_id
    pub typed :
        (context.remote_user_type ≡ said.remote_user_type)
        × ((said.remote_user_type ≡ "lab_admin") ⊎ (said.remote_user_type ≡ "user"))
    pub recent :
        ((said.timestamp ≤ clock.now + settings.request_ttl_seconds)
          × (clock.now ≤ said.timestamp + settings.request_ttl_seconds))
        ⊎ (said.timestamp ≡ clock.now + 2 ^ 63)
    pub signed : IsSigned req said context.remote_node
    pub spent :
        IsSpent clock said.remote_node_id said.nonce settings.request_ttl_seconds store.nonces
          store'.nonces
    pub kept : (store'.nodes ≡ store.nodes) × (store'.trusts ≡ store.trusts)

  -- A request that is accepted comes from a stored node that is active, at its key version, and a
  -- stored trust of the laboratory with that node and the laboratory of the headers is active. The
  -- headers name an administrator or a user. The timestamp is within the time to live of the present,
  -- before or after it, or at the distance 2 ^ 63 whose absolute value overflows. The signature is the
  -- one, with the secret of the node, over the method, the path, the hash of the body, the ids of the
  -- node, the laboratory and the user, the type of the user, the timestamp, the nonce and the key
  -- version; it is not over the user's name. The nonce, which was not in use, is stored. The clock and
  -- the time to live are in range, and a parsed i64 has 64 bits.
  pub verify_inbound_request-IsAuthentic :
      (clock : Clock) (laboratory_id : ℕ) (req : HttpRequest) (store store' : Store)
      (context : InboundContext)
      → clock.now < 2 ^ 63
      → settings.request_ttl_seconds ≤ clock.now
      → ((shown : String) (time : ℕ) → format.parse_i64 shown ≡ some time → time < 2 ^ 64)
      → verify_inbound_request crypto format settings clock laboratory_id req store
        ≡ (store', ok context)
      → IsAuthentic clock laboratory_id req store store' context
  unfolding expected_signature sign_canonical
  verify_inbound_request-IsAuthentic clock laboratory_id req store store' context small past wide
        h =
      let call =
        verify_inbound_request-IsAccepted crypto format settings clock laboratory_id req store
          store' context h in
      let said = call.said in
      let (shown, parsed) = read_headers-timestamp format req.headers said call.headers in
      let (node_stored, node_named) =
        fetch_remote_node-Among said.remote_node_id store.nodes context.remote_node
          call.genuine.node_known in
      let (trust_stored, in_force) =
        fetch_active_trust-IsInForce laboratory_id said.remote_node_id said.remote_laboratory_id
          store.trusts call.genuine.trust call.genuine.trusted in
      let (code, given, expected) = call.genuine.signed in
      record {
        enabled = call.enabled;
        said = said;
        headers = call.headers;
        node_stored = node_stored;
        node_named = node_named;
        node_active = call.genuine.node_active;
        key = call.genuine.key;
        trust = call.genuine.trust;
        trust_stored = trust_stored;
        in_force = in_force;
        laboratory = call.genuine.laboratory;
        user = call.genuine.user;
        typed = call.genuine.typed;
        recent =
            is_fresh_bounds clock.now said.timestamp settings.request_ttl_seconds small
              (wide shown said.timestamp parsed) past call.genuine.fresh;
        signed = record { code = code; given = given; expected = expected };
        spent = call.spent;
        kept = call.kept;
      }
