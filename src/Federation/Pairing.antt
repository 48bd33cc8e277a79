-- ===== src/Federation/Pairing.antt =====
-- Trusts between laboratories of two servers: `accept_pairing` and `revoke_trust` of
-- backend/src/routes/federation/{accept_pairing,revoke_trust}.rs with their statements in queries.rs.
-- Each is one transaction: an error leaves the store as it was. The timestamps of a trust are left
-- out; a code has the time at which it was consumed.
use text.Mathlib.Text.{◌==◌ as str_eq}
use lab_inventory.Common.{
  ℕ, String, Bool, true, false, not, ◌&&◌, ◌||◌, Option, none, some, List, [], ◌∷◌, ◌==◌, ltb,
  if◌then◌else◌, Result, ok, err, ◌>>=◌, ◌>>◌, guard, ok_or,
}
use lab_inventory.AccessControl.{Database, DbError, federation, delete}
use lab_inventory.AccessControl.Actors.{LaboratoryContext, authorization_actor}
use lab_inventory.AccessControl.Permissions.{validate_permission}
use lab_inventory.Federation.{
  Settings, RemoteNodeRow, TrustRow, PairingCodeRow, Store, DatabaseError, db_validation,
  db_conflict, db_unexpected, Crypto, Formats,
}
use lab_inventory.Federation.Signing.{sha256_hex}
use lab_inventory.Federation.Targets.{UrlOps, TargetError, normalize_base_url}

-- The errors of the handlers, by their status.
pub data PairingError : Type 0 where
  validation_error forbidden not_found conflict_error unexpected_error : PairingError

-- `impl From<FederationDatabaseError>`
abbrev pub of_database : {A : Type 0} → Result DatabaseError A → Result PairingError A
of_database (ok value) = ok value
of_database (err db_validation) = err validation_error
of_database (err db_conflict) = err conflict_error
of_database (err db_unexpected) = err unexpected_error

abbrev pub of_target : {A : Type 0} → Result TargetError A → Result PairingError A
of_target (ok value) = ok value
of_target (err e) = err validation_error

abbrev pub of_permission : Result DbError Bool → Result PairingError Bool
of_permission (ok value) = ok value
of_permission (err e) = err unexpected_error

abbrev pub is_unused : Option ℕ → Bool
is_unused none = true
is_unused (some time) = false

-- `code_hash = $1 AND consumed_at IS NULL AND expires_at > now()`
abbrev pub is_usable : ℕ → String → PairingCodeRow → Bool
is_usable now code_hash row =
    str_eq row.code_hash code_hash && is_unused row.consumed_at && ltb now row.expires_at

abbrev pub first_code :
    PairingCodeRow
    → Option (PairingCodeRow × List PairingCodeRow)
    → Option (PairingCodeRow × List PairingCodeRow)
first_code row none = none
first_code row (some (found, rows)) = some (found, row ∷ rows)

-- `consume_pairing_code`; the hash of a code is unique.
unfoldable pub consume_pairing_code :
    ℕ → String → List PairingCodeRow → Option (PairingCodeRow × List PairingCodeRow)
consume_pairing_code now code_hash [] = none
consume_pairing_code now code_hash (row ∷ rows) =
    let rest = first_code row (consume_pairing_code now code_hash rows) in
    if is_usable now code_hash row
    then some (row, record row { consumed_at = some now } ∷ rows)
    else rest

unfoldable pub hash_taken : String → List PairingCodeRow → Bool
hash_taken code_hash [] = false
hash_taken code_hash (row ∷ rows) = str_eq row.code_hash code_hash || hash_taken code_hash rows

-- `insert_pairing_code`, refused by the unique column, with the id that the new code takes.
unfoldable pub insert_pairing_code :
    ℕ → ℕ → String → ℕ → List PairingCodeRow → Result DatabaseError (List PairingCodeRow)
unfolding hash_taken
insert_pairing_code fresh laboratory_id code_hash expires_at rows =
    if hash_taken code_hash rows
    then err db_conflict
    else ok (
        record {
          pairing_code_id = fresh;
          local_laboratory_id = laboratory_id;
          code_hash = code_hash;
          expires_at = expires_at;
          consumed_at = none;
        }
        ∷ rows)

-- The unique column `base_url`.
unfoldable pub base_url_taken : ℕ → String → List RemoteNodeRow → Bool
base_url_taken id base_url [] = false
base_url_taken id base_url (row ∷ rows) =
    (not (row.remote_node_id == id) && str_eq row.base_url base_url)
    || base_url_taken id base_url rows

unfoldable pub put_node : RemoteNodeRow → List RemoteNodeRow → List RemoteNodeRow
put_node node [] = node ∷ []
put_node node (row ∷ rows) =
    let rest = put_node node rows in
    if row.remote_node_id == node.remote_node_id then node ∷ rows else row ∷ rest

-- `upsert_remote_node`, which stores an active node.
unfoldable pub upsert_remote_node :
    RemoteNodeRow → List RemoteNodeRow → Result DatabaseError (List RemoteNodeRow)
unfolding base_url_taken put_node
upsert_remote_node node nodes =
    if base_url_taken node.remote_node_id node.base_url nodes
    then err db_conflict
    else ok (put_node node nodes)

-- The unique columns of a trust.
abbrev pub is_between : ℕ → ℕ → ℕ → TrustRow → Bool
is_between laboratory_id node_id remote_laboratory_id row =
    row.local_laboratory_id == laboratory_id
    && row.remote_node_id == node_id
    && row.remote_laboratory_id == remote_laboratory_id

-- `upsert_trust`, with the id that a new trust takes.
unfoldable pub upsert_trust : ℕ → ℕ → ℕ → ℕ → List TrustRow → List TrustRow
upsert_trust fresh laboratory_id node_id remote_laboratory_id [] =
    record {
      trust_id = fresh;
      local_laboratory_id = laboratory_id;
      remote_node_id = node_id;
      remote_laboratory_id = remote_laboratory_id;
      status = "active";
    }
    ∷ []
upsert_trust fresh laboratory_id node_id remote_laboratory_id (row ∷ rows) =
    let rest = upsert_trust fresh laboratory_id node_id remote_laboratory_id rows in
    if is_between laboratory_id node_id remote_laboratory_id row
    then record row { status = "active" } ∷ rows
    else row ∷ rest

abbrev pub kept : TrustRow → Option (List TrustRow) → Option (List TrustRow)
kept row none = none
kept row (some rows) = some (row ∷ rows)

-- `revoke_trust_in_database`; the id of a trust is its key.
unfoldable pub revoke_trust_in_database : ℕ → ℕ → List TrustRow → Option (List TrustRow)
revoke_trust_in_database laboratory_id trust_id [] = none
revoke_trust_in_database laboratory_id trust_id (row ∷ rows) =
    let rest = kept row (revoke_trust_in_database laboratory_id trust_id rows) in
    if row.local_laboratory_id == laboratory_id && row.trust_id == trust_id
    then some (record row { status = "revoked" } ∷ rows)
    else rest

-- `AcceptPairingJsonData`, with the bytes of its texts.
pub record AcceptPairingData : Type 0 where
  pub pairing_code : List ℕ
  pub requester_node_id : ℕ
  pub requester_base_url : String
  pub requester_laboratory_id : ℕ
  pub requester_laboratory_name : String
  pub shared_secret : String
  pub shared_secret_bytes : List ℕ
  pub tls_certificate_sha256 : Option String

pub record AcceptPairingResponse : Type 0 where
  pub node_id : ℕ
  pub public_base_url : String
  pub laboratory_id : ℕ
  pub laboratory_name : String
  pub tls_certificate_sha256 : Option String
  pub key_version : ℕ

-- The node that `accept_pairing` stores for the requester.
abbrev pub paired_node : Crypto → AcceptPairingData → String → RemoteNodeRow
paired_node crypto payload base_url = record {
  remote_node_id = payload.requester_node_id;
  base_url = base_url;
  display_name = some payload.requester_laboratory_name;
  shared_secret = payload.shared_secret;
  shared_secret_hash = sha256_hex crypto payload.shared_secret_bytes;
  tls_certificate_sha256 = none;
  status = "active";
  key_version = 1;
}

module _ (crypto : Crypto) (format : Formats) (ops : UrlOps) (settings : Settings)
    (local_node : Option ℕ) (laboratories : ℕ → Option String) where
  -- `accept_pairing`
  unfoldable pub accept_pairing :
      ℕ → ℕ → AcceptPairingData → Store → Result PairingError (AcceptPairingResponse × Store)
  unfolding normalize_base_url consume_pairing_code upsert_remote_node upsert_trust
  accept_pairing now fresh payload store = do
    guard settings.enabled forbidden
    base_url ← of_target (normalize_base_url ops payload.requester_base_url settings)
    guard (not (str_eq (format.trim payload.shared_secret) "")) validation_error
    local_node_id ← ok_or local_node unexpected_error
    (code, codes) ←
        ok_or (consume_pairing_code now (sha256_hex crypto payload.pairing_code) store.codes)
          validation_error
    name ← ok_or (laboratories code.local_laboratory_id) unexpected_error
    nodes ← of_database (upsert_remote_node (paired_node crypto payload base_url) store.nodes)
    ok (
      record {
        node_id = local_node_id;
        public_base_url = settings.public_base_url;
        laboratory_id = code.local_laboratory_id;
        laboratory_name = name;
        tls_certificate_sha256 = payload.tls_certificate_sha256;
        key_version = 1;
      },
      record store {
        nodes = nodes;
        codes = codes;
        trusts =
            upsert_trust fresh code.local_laboratory_id payload.requester_node_id
              payload.requester_laboratory_id store.trusts;
      },
    )

-- `revoke_trust`
unfoldable pub revoke_trust :
    Database → Settings → LaboratoryContext → ℕ → Store → Result PairingError Store
unfolding validate_permission revoke_trust_in_database
revoke_trust pool settings context trust_id store = do
  guard settings.enabled forbidden
  granted ← of_permission (
      validate_permission pool (authorization_actor context) federation
        (delete context.laboratory_id))
  guard granted forbidden
  trusts ← ok_or (revoke_trust_in_database context.laboratory_id trust_id store.trusts) not_found
  ok record store {
    trusts = trusts;
    audit = record { actor_id = context.actor.user_id; trust_id = trust_id } ∷ store.audit;
  }
