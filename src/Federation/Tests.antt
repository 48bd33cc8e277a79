-- ===== src/Federation/Tests.antt =====
-- Federation on concrete servers: node 5, with laboratory 6 and its user 7, calls laboratory 1.
mod Trusts
use text.Mathlib.Text.{◌==◌ as str_eq}
use lab_inventory.Common.{
  ℕ, zero, suc, ◌+◌, ◌^◌, ◌≤◌, ◌<◌, ◌≡◌, ◌≢◌, ◌↔◌, ◌⊎◌, inl, inr, refl, arith, String, Bool, true,
  false, ◌&&◌, ◌||◌, Option, none, some, List, [], ◌∷◌, ◌==◌, if◌then◌else◌, Bool-cases, Result, ok,
  err, get_or,
}
use lab_inventory.AccessControl.{Database, DbError, Actor, lab_admin}
use lab_inventory.AccessControl.Actors.{
  LaboratoryContext, can_manage_federation, authorization_actor,
}
use lab_inventory.LabelPrinting.Transport.{v4}
use lab_inventory.Federation.{
  Settings, RemoteNodeRow, TrustRow, NonceRow, PairingCodeRow, Store, unauthorized, Crypto, Formats,
  HttpRequest, InboundContext, OutboundIdentity,
}
use lab_inventory.Federation.Signing.{signed_headers, sign_canonical, verify_signature}
use lab_inventory.Federation.Nonces.{
  remember_nonce, delete_expired_nonces, nonce_taken, insert_nonce,
}
use lab_inventory.Federation.Inbound.{
  Clock, is_fresh, fetch_remote_node, fetch_active_trust, read_headers, check_headers,
  expected_signature, verify_inbound_request, InboundHeaders,
}
use lab_inventory.Federation.Signatures.{verify_signature_iff}
use lab_inventory.Federation.Authentic.{IsAuthentic, verify_inbound_request-IsAuthentic}
use lab_inventory.Federation.Replay.{Later, here, replay_refused}
use lab_inventory.Federation.Freshness.{is_fresh_bounds}
use lab_inventory.Federation.Exchange.{
  sent, IsReadable, IsCaller, IsExpected, verify_inbound_request-signed_headers,
}
use lab_inventory.Federation.Targets.{Url, UrlOps, validate_remote_url, normalize_base_url}
use lab_inventory.Federation.Destinations.{IsAllowed, normalize_base_url-IsAllowed}
use lab_inventory.Federation.Pairing.{
  AcceptPairingData, AcceptPairingResponse, accept_pairing, revoke_trust,
}
use lab_inventory.Federation.Codes.{hash_count}
use lab_inventory.Federation.Trusts.{trust_count, find_trust}
use lab_inventory.Federation.Access.{
  IsPaired, accept_pairing-IsPaired, accept_pairing_once, revoke_trust_refuses,
}

-- A code of two keys.
abbrev mac : String → String → List ℕ
mac key message = if str_eq key "stolen" then 9 ∷ 9 ∷ [] else 7 ∷ 8 ∷ []

abbrev crypto : Crypto
crypto = record {
  digest = λ bytes. bytes;
  mac = mac;
  encode = λ bytes. if get_or bytes 0 0 == 9 then "CQk=" else "Bwg=";
  decode = λ s.
      if str_eq s "CQk="
      then some (9 ∷ 9 ∷ [])
      else if str_eq s "Bwg="
      then some (7 ∷ 8 ∷ [])
      else none;
}

abbrev show : ℕ → String
show n =
    if n == 1
    then "1"
    else if n == 5
    then "5"
    else if n == 6
    then "6"
    else if n == 7
    then "7"
    else "1200"

abbrev parse : String → Option ℕ
parse s =
    if str_eq s "1"
    then some 1
    else if str_eq s "5"
    then some 5
    else if str_eq s "6"
    then some 6
    else if str_eq s "7"
    then some 7
    else some 1200

abbrev format : Formats
format = record {
  show_uuid = show;
  parse_uuid = parse;
  show_i64 = show;
  parse_i64 = parse;
  show_i32 = show;
  parse_i32 = parse;
  trim = λ s. s;
  to_uppercase = λ s. s;
}

abbrev settings : Settings
settings = record {
  enabled = true;
  public_base_url = "https://here.example";
  require_https = true;
  allow_insecure_private_network = false;
  request_ttl_seconds = 300;
  allowed_remote_hosts = [];
}

abbrev node : RemoteNodeRow
node = record {
  remote_node_id = 5;
  base_url = "https://there.example";
  display_name = none;
  shared_secret = "secret";
  shared_secret_hash = "00";
  tls_certificate_sha256 = none;
  status = "active";
  key_version = 1;
}

abbrev trust : String → TrustRow
trust status = record {
  trust_id = 30;
  local_laboratory_id = 1;
  remote_node_id = 5;
  remote_laboratory_id = 6;
  status = status;
}

abbrev code : Option ℕ → PairingCodeRow
code consumed_at = record {
  pairing_code_id = 40;
  local_laboratory_id = 2;
  code_hash = "2a";
  expires_at = 1500;
  consumed_at = consumed_at;
}

abbrev store : Store
store = record {
  nodes = node ∷ [];
  trusts = trust "active" ∷ [];
  nonces = [];
  codes = code none ∷ [];
  audit = [];
}

abbrev caller : OutboundIdentity
caller = record {
  local_node_id = 5;
  local_laboratory_id = 6;
  user_id = 7;
  username = "ada";
  user_type = "user";
}

abbrev request : HttpRequest
request = sent crypto format 1200 "n1" "GET" "/assets" [] node caller

abbrev at : ℕ → Clock
at time = record { now = time; swept_at = time; stored_at = time }

abbrev context : InboundContext
context = record {
  remote_node = node;
  remote_laboratory_id = 6;
  remote_user_id = 7;
  remote_username = "ada";
  remote_user_type = "user";
}

abbrev accepted : Store
accepted = record store {
  nonces = record { remote_node_id = 5; nonce = "n1"; expires_at = 1300 } ∷ [];
}

accepts :
    verify_inbound_request crypto format settings (at 1000) 1 request store ≡ (accepted, ok context)
unfolding verify_inbound_request signed_headers
accepts = refl

refuses_at_once :
    (verify_inbound_request crypto format settings (at 1000) 1 request accepted).1
    ≡ err unauthorized
unfolding verify_inbound_request signed_headers
refuses_at_once = refl

-- A timestamp ahead of the clock outlives the nonce.
accepts_replay :
    (verify_inbound_request crypto format settings (at 1400) 1 request accepted).1 ≡ ok context
unfolding verify_inbound_request signed_headers
accepts_replay = refl

-- In a release build the distance 2 ^ 63 counts as small.
fresh_overflow : is_fresh 1000 (1000 + 2 ^ 63) 300 ≡ true
unfolding is_fresh
fresh_overflow = refl

wide : (shown : String) (time : ℕ) → format.parse_i64 shown ≡ some time → time < 2 ^ 64
wide shown time h = ground arith

verify_inbound_request-IsAuthentic_example :
    IsAuthentic crypto format settings (at 1000) 1 request store accepted context
verify_inbound_request-IsAuthentic_example =
    verify_inbound_request-IsAuthentic crypto format settings (at 1000) 1 request store accepted
      context (omega arith) (omega arith) wide accepts

replay_refused_example :
    (verify_inbound_request crypto format settings (at 1299) 1 request accepted).1 ≢ ok context
replay_refused_example =
    replay_refused crypto format settings (at 1000) (at 1299) 1 1 request request store accepted
      accepted context context accepts here (omega arith) refl refl

verify_signature_iff_example :
    (verify_signature crypto "Bwg=" "CQk=" ≡ ok tt)
    ↔ ((bytes : List ℕ) × (crypto.decode "Bwg=" ≡ some bytes) × (crypto.decode "CQk=" ≡ some bytes))
verify_signature_iff_example = verify_signature_iff crypto "Bwg=" "CQk="

decodes :
    (key message : String)
    → crypto.decode (crypto.encode (mac key message)) ≡ some (mac key message)
decodes key message = elim (Bool-cases (str_eq key "stolen")) [
  | inl stolen ↦ rw stolen
  | inr other ↦ rw other
]

readable : IsReadable crypto format 1200 node caller
readable = record {
  node = refl;
  laboratory = refl;
  user = refl;
  i64 = refl;
  i32 = refl;
  base64 = decodes;
}

may_call : IsCaller format caller
may_call = record { username_trimmed = refl; type_trimmed = refl; named = refl; typed = refl }

expected : IsExpected crypto format settings (at 1000) 1200 1 "n1" store node caller node
unfolding is_fresh fetch_remote_node fetch_active_trust nonce_taken delete_expired_nonces
expected = record {
  enabled = refl;
  fresh = refl;
  known = refl;
  active = refl;
  secret = refl;
  key = refl;
  trust = trust "active";
  trusted = refl;
  nonce_filled = refl;
  nonce_new = refl;
}

verify_inbound_request-signed_headers_example :
    verify_inbound_request crypto format settings (at 1000) 1 request store ≡ (
      record store {
        nonces =
            record { remote_node_id = 5; nonce = "n1"; expires_at = 1300 }
            ∷ delete_expired_nonces 1000 [];
      },
      ok context,
    )
verify_inbound_request-signed_headers_example =
    verify_inbound_request-signed_headers crypto format settings (at 1000) 1200 1 "n1" "GET"
      "/assets" [] store node caller node readable may_call expected

fresh_now : is_fresh 1000 1200 300 ≡ true
unfolding is_fresh
fresh_now = refl

is_fresh_bounds_example : ((1200 ≤ 1300) × (1000 ≤ 1500)) ⊎ (1200 ≡ 1000 + 2 ^ 63)
is_fresh_bounds_example =
    is_fresh_bounds 1000 1200 300 (omega arith) (omega arith) (omega arith) fresh_now
