-- ===== src/Federation/Inbound.antt =====
-- The check of an inbound request: `verify_inbound_request` of
-- backend/src/routes/federation/security.rs. The clock gives the time of the program and the times
-- of the two statements on the nonces. An i64 is the number of its two's complement, with the
-- wrap-around of a release build.
use text.Mathlib.Text.{◌==◌ as str_eq}
use lab_inventory.Common.{
  ℕ, ◌+◌, ◌-◌, ◌%◌, ◌^◌, String, Bool, not, ◌&&◌, ◌||◌, Option, none, some, List, [], ◌∷◌, ◌==◌,
  ltb, if◌then◌else◌, Result, ok, err, ◌>>=◌, ◌>>◌, guard, ok_or,
}
use lab_inventory.Federation.{
  Settings, RemoteNodeRow, TrustRow, NonceRow, Store, SecurityError, unauthorized, forbidden,
  Crypto, Formats, Headers, HttpRequest, InboundContext,
}
use lab_inventory.Federation.Signing.{
  sha256_hex, sign_canonical, verify_signature, required_header, parse_header,
}
use lab_inventory.Federation.Nonces.{remember_nonce}

pub record Clock : Type 0 where
  pub now : ℕ
  pub swept_at : ℕ
  pub stored_at : ℕ

abbrev pub sub_i64 : ℕ → ℕ → ℕ
sub_i64 a b = (a + 2 ^ 64 - b) % 2 ^ 64

abbrev pub abs_i64 : ℕ → ℕ
abs_i64 x = if ltb x (2 ^ 63) then x else (2 ^ 64 - x) % 2 ^ 64

abbrev pub less_i64 : ℕ → ℕ → Bool
less_i64 a b = ltb ((a + 2 ^ 63) % 2 ^ 64) ((b + 2 ^ 63) % 2 ^ 64)

-- `(now - timestamp).abs() > ttl` is false.
unfoldable pub is_fresh : ℕ → ℕ → ℕ → Bool
is_fresh now timestamp ttl_seconds = not (less_i64 ttl_seconds (abs_i64 (sub_i64 now timestamp)))

-- `fetch_remote_node`
unfoldable pub fetch_remote_node : ℕ → List RemoteNodeRow → Option RemoteNodeRow
fetch_remote_node id [] = none
fetch_remote_node id (row ∷ rows) =
    let rest = fetch_remote_node id rows in if row.remote_node_id == id then some row else rest

abbrev pub is_active_trust : ℕ → ℕ → ℕ → TrustRow → Bool
is_active_trust laboratory_id node_id remote_laboratory_id row =
    row.local_laboratory_id == laboratory_id
    && row.remote_node_id == node_id
    && row.remote_laboratory_id == remote_laboratory_id
    && str_eq row.status "active"

-- `fetch_active_trust`
unfoldable pub fetch_active_trust : ℕ → ℕ → ℕ → List TrustRow → Option TrustRow
fetch_active_trust laboratory_id node_id remote_laboratory_id [] = none
fetch_active_trust laboratory_id node_id remote_laboratory_id (row ∷ rows) =
    let rest = fetch_active_trust laboratory_id node_id remote_laboratory_id rows in
    if is_active_trust laboratory_id node_id remote_laboratory_id row then some row else rest

abbrev pub path_of : Option String → String → String
path_of none path = path
path_of (some path_and_query) path = path_and_query

abbrev pub with_nonce :
    InboundContext
    → Store
    → List NonceRow × Result SecurityError (Unit {0})
    → Store × Result SecurityError InboundContext
with_nonce context store (rows, ok done) = (record store { nonces = rows }, ok context)
with_nonce context store (rows, err e) = (record store { nonces = rows }, err e)

-- What the headers of a request say.
pub record InboundHeaders : Type 0 where
  pub remote_node_id : ℕ
  pub key_version : ℕ
  pub timestamp : ℕ
  pub nonce : String
  pub signature : String
  pub remote_laboratory_id : ℕ
  pub remote_user_id : ℕ
  pub remote_username : String
  pub remote_user_type : String

module _ (format : Formats) where
  -- The headers, in the order in which `verify_inbound_request` reads them.
  unfoldable pub read_headers : Headers → Result SecurityError InboundHeaders
  read_headers headers = do
    remote_node_id ← parse_header format.parse_uuid headers "x-federation-node-id"
    key_version ← parse_header format.parse_i32 headers "x-federation-key-version"
    timestamp ← parse_header format.parse_i64 headers "x-federation-timestamp"
    nonce ← required_header headers "x-federation-nonce"
    signature ← required_header headers "x-federation-signature"
    remote_laboratory_id ←
        parse_header format.parse_uuid headers "x-federation-remote-laboratory-id"
    remote_user_id ← parse_header format.parse_uuid headers "x-federation-remote-user-id"
    remote_username ← required_header headers "x-federation-remote-username"
    remote_user_type ← required_header headers "x-federation-remote-user-type"
    ok record {
      remote_node_id = remote_node_id;
      key_version = key_version;
      timestamp = timestamp;
      nonce = nonce;
      signature = signature;
      remote_laboratory_id = remote_laboratory_id;
      remote_user_id = remote_user_id;
      remote_username = format.trim remote_username;
      remote_user_type = format.trim remote_user_type;
    }

module _ (crypto : Crypto) (format : Formats) where
  -- The signature that a request with these headers must have.
  unfoldable pub expected_signature : HttpRequest → InboundHeaders → RemoteNodeRow → String
  unfolding sign_canonical
  expected_signature req said remote_node =
      sign_canonical crypto format remote_node.shared_secret req.method
        (path_of req.path_and_query req.path) (sha256_hex crypto req.body) said.remote_node_id
        said.remote_laboratory_id said.remote_user_id said.remote_user_type
        (format.show_i64 said.timestamp) said.nonce said.key_version

module _ (crypto : Crypto) (format : Formats) (settings : Settings) where
  -- The checks of the headers and of the signature.
  unfoldable pub check_headers :
      ℕ → ℕ → HttpRequest → Store → InboundHeaders → Result SecurityError InboundContext
  unfolding expected_signature verify_signature is_fresh fetch_remote_node fetch_active_trust
  check_headers now target_laboratory_id req store said = do
    guard (str_eq said.remote_user_type "lab_admin" || str_eq said.remote_user_type "user")
        forbidden
    guard (not (str_eq said.remote_username "")) unauthorized
    guard (is_fresh now said.timestamp settings.request_ttl_seconds) unauthorized
    remote_node ← ok_or (fetch_remote_node said.remote_node_id store.nodes) unauthorized
    guard (str_eq remote_node.status "active" && remote_node.key_version == said.key_version)
        unauthorized
    trust ←
        ok_or
          (fetch_active_trust target_laboratory_id said.remote_node_id said.remote_laboratory_id
            store.trusts)
          forbidden
    verify_signature crypto said.signature (expected_signature crypto format req said remote_node)
    ok record {
      remote_node = remote_node;
      remote_laboratory_id = said.remote_laboratory_id;
      remote_user_id = said.remote_user_id;
      remote_username = said.remote_username;
      remote_user_type = said.remote_user_type;
    }

  abbrev pub spend_nonce :
      Clock
      → Store
      → InboundHeaders
      → Result SecurityError InboundContext
      → Store × Result SecurityError InboundContext
  spend_nonce clock store said (err e) = (store, err e)
  spend_nonce clock store said (ok context) = with_nonce context store (
      remember_nonce clock.swept_at clock.stored_at said.remote_node_id said.nonce
        settings.request_ttl_seconds store.nonces)

  abbrev pub verify_headers :
      Clock
      → ℕ
      → HttpRequest
      → Store
      → Result SecurityError InboundHeaders
      → Store × Result SecurityError InboundContext
  verify_headers clock target_laboratory_id req store (err e) = (store, err e)
  verify_headers clock target_laboratory_id req store (ok said) =
      spend_nonce clock store said (check_headers clock.now target_laboratory_id req store said)

  -- `verify_inbound_request`
  unfoldable pub verify_inbound_request :
      Clock → ℕ → HttpRequest → Store → Store × Result SecurityError InboundContext
  unfolding read_headers check_headers remember_nonce
  verify_inbound_request clock target_laboratory_id req store =
      if settings.enabled
      then verify_headers clock target_laboratory_id req store (read_headers format req.headers)
      else (store, err forbidden)
