-- ===== src/Federation.antt =====
-- Federation between servers: backend/src/routes/federation/{model,queries,security}.rs and the
-- settings of backend/src/configuration.rs. The rows of the tables, without the columns that only
-- a reader sees, and the code of other crates that signing uses, as records of functions.
pub mod Signing
pub mod Nonces
pub mod Inbound
pub mod Signatures
pub mod Genuine
pub mod Authentic
pub mod Replay
pub mod Freshness
pub mod Exchange
pub mod Targets
pub mod Destinations
pub mod Pairing
pub mod Codes
pub mod Reissuing
pub mod Trusts
pub mod Access
mod Tests
use lab_inventory.Common.{ℕ, String, Bool, Option, List, Result}

-- `FederationSettings`
pub record Settings : Type 0 where
  pub enabled : Bool
  pub public_base_url : String
  pub require_https : Bool
  pub allow_insecure_private_network : Bool
  pub request_ttl_seconds : ℕ
  pub allowed_remote_hosts : List String

pub record RemoteNodeRow : Type 0 where
  pub remote_node_id : ℕ
  pub base_url : String
  pub display_name : Option String
  pub shared_secret : String
  pub shared_secret_hash : String
  pub tls_certificate_sha256 : Option String
  pub status : String
  pub key_version : ℕ

pub record TrustRow : Type 0 where
  pub trust_id : ℕ
  pub local_laboratory_id : ℕ
  pub remote_node_id : ℕ
  pub remote_laboratory_id : ℕ
  pub status : String

pub record NonceRow : Type 0 where
  pub remote_node_id : ℕ
  pub nonce : String
  pub expires_at : ℕ

pub record PairingCodeRow : Type 0 where
  pub pairing_code_id : ℕ
  pub local_laboratory_id : ℕ
  pub code_hash : String
  pub expires_at : ℕ
  pub consumed_at : Option ℕ

-- The audit record of a change of a trust, without its details.
pub record TrustAudit : Type 0 where
  pub actor_id : ℕ
  pub trust_id : ℕ

pub record Store : Type 0 where
  pub nodes : List RemoteNodeRow
  pub trusts : List TrustRow
  pub nonces : List NonceRow
  pub codes : List PairingCodeRow
  pub audit : List TrustAudit

-- `FederationSecurityError`, by its variants.
pub data SecurityError : Type 0 where
  unauthorized forbidden unexpected : SecurityError

-- `FederationDatabaseError`, by its variants.
pub data DatabaseError : Type 0 where
  db_validation db_conflict db_unexpected : DatabaseError

-- `impl From<FederationDatabaseError> for FederationSecurityError`
abbrev pub security_error : DatabaseError → SecurityError
security_error db_conflict = unauthorized
security_error db_validation = unexpected
security_error db_unexpected = unexpected

-- SHA-256, HMAC-SHA-256 with a text as its key, and standard base64.
pub record Crypto : Type 0 where
  pub digest : List ℕ → List ℕ
  pub mac : String → String → List ℕ
  pub encode : List ℕ → String
  pub decode : String → Option (List ℕ)

-- `Display` and `FromStr` of uuids, i64 and i32, and the operations on texts. An i64 or an i32 is the
-- number of its two's complement.
pub record Formats : Type 0 where
  pub show_uuid : ℕ → String
  pub parse_uuid : String → Option ℕ
  pub show_i64 : ℕ → String
  pub parse_i64 : String → Option ℕ
  pub show_i32 : ℕ → String
  pub parse_i32 : String → Option ℕ
  pub trim : String → String
  pub to_uppercase : String → String

-- A header's value, a text or bytes that `to_str` refuses, under its name.
pub data HeaderValue : Type 0 where
  visible : String → HeaderValue
  opaque : HeaderValue

abbrev pub Headers : Type 0
Headers = String → Option HeaderValue

pub record HttpRequest : Type 0 where
  pub method : String
  pub path_and_query : Option String
  pub path : String
  pub headers : Headers
  pub body : List ℕ

-- `InboundFederationContext`
pub record InboundContext : Type 0 where
  pub remote_node : RemoteNodeRow
  pub remote_laboratory_id : ℕ
  pub remote_user_id : ℕ
  pub remote_username : String
  pub remote_user_type : String

-- `OutboundFederationIdentity`
pub record OutboundIdentity : Type 0 where
  pub local_node_id : ℕ
  pub local_laboratory_id : ℕ
  pub user_id : ℕ
  pub username : String
  pub user_type : String
