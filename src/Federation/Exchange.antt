-- ===== src/Federation/Exchange.antt =====
-- A request that `signed_headers` signs is accepted by `verify_inbound_request`:
-- backend/src/routes/federation/security.rs at both ends.
use text.Mathlib.Text.{◌==◌ as str_eq}
use lab_inventory.Common.{
  ℕ, ◌+◌, ◌≡◌, String, true, false, ◌||◌, none, some, List, [], ◌∷◌, ==_refl, if◌then◌else◌, ok,
}
use lab_inventory.Federation.{
  Settings, Store, RemoteNodeRow, TrustRow, Crypto, Formats, Headers, visible, HttpRequest,
  OutboundIdentity,
}
use lab_inventory.Federation.Signing.{signed_headers, sign_canonical, verify_signature, sha256_hex}
use lab_inventory.Federation.Signatures.{verify_signature_iff}
use lab_inventory.Federation.Nonces.{
  remember_nonce, delete_expired_nonces, nonce_taken, insert_nonce,
}
use lab_inventory.Federation.Inbound.{
  Clock, InboundHeaders, is_fresh, fetch_remote_node, fetch_active_trust, read_headers,
  check_headers, expected_signature, verify_inbound_request,
}

-- The headers of a request, looked up by name.
abbrev pub header_map : List (String × String) → Headers
header_map [] name = none
header_map ((key, value) ∷ rest) name =
    if str_eq key name then some (visible value) else header_map rest name

-- The ids, the time and the version that a caller writes are read back, and so is a signature.
pub record IsReadable (crypto : Crypto) (format : Formats) (time : ℕ) (remote_node : RemoteNodeRow)
    (identity : OutboundIdentity) : Type 0 where
  pub node :
      format.parse_uuid (format.show_uuid identity.local_node_id) ≡ some identity.local_node_id
  pub laboratory :
      format.parse_uuid (format.show_uuid identity.local_laboratory_id)
      ≡ some identity.local_laboratory_id
  pub user : format.parse_uuid (format.show_uuid identity.user_id) ≡ some identity.user_id
  pub i64 : format.parse_i64 (format.show_i64 time) ≡ some time
  pub i32 :
      format.parse_i32 (format.show_i32 remote_node.key_version) ≡ some remote_node.key_version
  pub base64 :
      (key message : String)
      → crypto.decode (crypto.encode (crypto.mac key message)) ≡ some (crypto.mac key message)

-- A caller whose name and type are trimmed, and who may call.
pub record IsCaller (format : Formats) (identity : OutboundIdentity) : Type 0 where
  pub username_trimmed : format.trim identity.username ≡ identity.username
  pub type_trimmed : format.trim identity.user_type ≡ identity.user_type
  pub named : str_eq identity.username "" ≡ false
  pub typed : (str_eq identity.user_type "lab_admin" || str_eq identity.user_type "user") ≡ true

module _ (crypto : Crypto) (format : Formats) where
  abbrev pub sent :
      ℕ → String → String → String → List ℕ → RemoteNodeRow → OutboundIdentity → HttpRequest
  sent time nonce method path body remote_node identity = record {
    method = method;
    path_and_query = some path;
    path = path;
    headers =
        header_map (signed_headers crypto format time nonce method path body remote_node identity);
    body = body;
  }

  abbrev heard :
      ℕ → String → String → String → List ℕ → RemoteNodeRow → OutboundIdentity → InboundHeaders
  heard time nonce method path body remote_node identity = record {
    remote_node_id = identity.local_node_id;
    key_version = remote_node.key_version;
    timestamp = time;
    nonce = nonce;
    signature =
        sign_canonical crypto format remote_node.shared_secret method path (sha256_hex crypto body)
          identity.local_node_id identity.local_laboratory_id identity.user_id identity.user_type
          (format.show_i64 time) nonce remote_node.key_version;
    remote_laboratory_id = identity.local_laboratory_id;
    remote_user_id = identity.user_id;
    remote_username = identity.username;
    remote_user_type = identity.user_type;
  }

  read_headers-signed_headers :
      (time : ℕ) (nonce method path : String) (body : List ℕ) (remote_node : RemoteNodeRow)
      (identity : OutboundIdentity)
      → IsReadable crypto format time remote_node identity
      → IsCaller format identity
      → read_headers format (sent time nonce method path body remote_node identity).headers
        ≡ ok (heard time nonce method path body remote_node identity)
  unfolding read_headers signed_headers
  read_headers-signed_headers time nonce method path body remote_node identity readable caller =
      rw (
        readable.node, readable.i32, readable.i64, readable.laboratory, readable.user,
        caller.username_trimmed, caller.type_trimmed,
      )

  verifies :
      (bytes : List ℕ)
      → crypto.decode (crypto.encode bytes) ≡ some bytes
      → verify_signature crypto (crypto.encode bytes) (crypto.encode bytes) ≡ ok tt
  verifies bytes decodes =
      (verify_signature_iff crypto (crypto.encode bytes) (crypto.encode bytes)).1
        (bytes, decodes, decodes)

  verify_signature-heard :
      (time : ℕ) (nonce method path : String) (body : List ℕ) (remote_node node : RemoteNodeRow)
      (identity : OutboundIdentity)
      → IsReadable crypto format time remote_node identity
      → node.shared_secret ≡ remote_node.shared_secret
      → (let said = heard time nonce method path body remote_node identity in
          verify_signature crypto said.signature (
            expected_signature crypto format
              (sent time nonce method path body remote_node identity)
              said
              node)
          ≡ ok tt)
  unfolding expected_signature sign_canonical
  verify_signature-heard time nonce method path body remote_node node identity readable secret =
      rw secret (verifies _ (readable.base64 _ _))

  -- What the receiving server must know for a request to be accepted.
  pub record IsExpected (settings : Settings) (clock : Clock) (time laboratory_id : ℕ)
      (nonce : String) (store : Store) (remote_node : RemoteNodeRow) (identity : OutboundIdentity)
      (node : RemoteNodeRow) : Type 0 where
    pub enabled : settings.enabled ≡ true
    pub fresh : is_fresh clock.now time settings.request_ttl_seconds ≡ true
    pub known : fetch_remote_node identity.local_node_id store.nodes ≡ some node
    pub active : str_eq node.status "active" ≡ true
    pub secret : node.shared_secret ≡ remote_node.shared_secret
    pub key : node.key_version ≡ remote_node.key_version
    pub trust : TrustRow
    pub trusted :
        fetch_active_trust laboratory_id identity.local_node_id identity.local_laboratory_id
          store.trusts
        ≡ some trust
    pub nonce_filled : str_eq nonce "" ≡ false
    pub nonce_new :
        nonce_taken identity.local_node_id nonce (delete_expired_nonces clock.swept_at store.nonces)
        ≡ false

  -- A request that one server signs is accepted by the other, as the caller who was signed for, if both
  -- have the same secret and key version, the sender is an active node with an active trust, the
  -- timestamp is fresh and the nonce is not in use.
  pub verify_inbound_request-signed_headers :
      (settings : Settings) (clock : Clock) (time laboratory_id : ℕ) (nonce method path : String)
      (body : List ℕ) (store : Store) (remote_node : RemoteNodeRow) (identity : OutboundIdentity)
      (node : RemoteNodeRow)
      → IsReadable crypto format time remote_node identity
      → IsCaller format identity
      → IsExpected settings clock time laboratory_id nonce store remote_node identity node
      → verify_inbound_request crypto format settings clock laboratory_id
          (sent time nonce method path body remote_node identity)
          store
        ≡ (
          record store {
            nonces =
                record {
                  remote_node_id = identity.local_node_id;
                  nonce = nonce;
                  expires_at = clock.stored_at + settings.request_ttl_seconds;
                }
                ∷ delete_expired_nonces clock.swept_at store.nonces;
          },
          ok record {
            remote_node = node;
            remote_laboratory_id = identity.local_laboratory_id;
            remote_user_id = identity.user_id;
            remote_username = identity.username;
            remote_user_type = identity.user_type;
          },
        )
  unfolding verify_inbound_request check_headers remember_nonce insert_nonce
  verify_inbound_request-signed_headers settings clock time laboratory_id nonce method path body
        store remote_node identity node readable caller expected =
      rw (
        expected.enabled,
        read_headers-signed_headers time nonce method path body remote_node identity readable
            caller,
        caller.typed,
        caller.named,
        expected.fresh,
        expected.known,
        expected.active,
        expected.key,
        ==_refl remote_node.key_version,
        expected.trusted,
        verify_signature-heard time nonce method path body remote_node node identity readable
            expected.secret,
        expected.nonce_filled,
        expected.nonce_new,
      )
