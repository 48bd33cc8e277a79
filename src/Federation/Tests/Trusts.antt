-- ===== src/Federation/Tests/Trusts.antt =====
-- Base urls, pairing and revoking on the same servers, where node 5 of laboratory 1 pairs again, for
-- laboratory 2 and with a new secret.
use text.Mathlib.TextEquality.{eq_iff}
use lab_inventory.Common.{
  ℕ, ◌≤◌, ◌≡◌, ◌≢◌, refl, arith, String, Option, none, some, [], ◌∷◌, Result, ok, get_or,
}
use lab_inventory.AccessControl.{Database, DbError, lab_admin}
use lab_inventory.AccessControl.Actors.{
  LaboratoryContext, can_manage_federation, authorization_actor,
}
use lab_inventory.LabelPrinting.Transport.{Ipv4Addr, v4}
use lab_inventory.Federation.{Store}
use lab_inventory.Federation.Signing.{signed_headers}
use lab_inventory.Federation.Inbound.{read_headers, verify_inbound_request, InboundHeaders}
use lab_inventory.Federation.Exchange.{sent}
use lab_inventory.Federation.Targets.{Url, UrlOps, validate_remote_url, normalize_base_url}
use lab_inventory.Federation.Destinations.{IsAllowed, normalize_base_url-IsAllowed}
use lab_inventory.Federation.Pairing.{
  AcceptPairingData, AcceptPairingResponse, insert_pairing_code, accept_pairing, revoke_trust,
}
use lab_inventory.Federation.Codes.{hash_count}
use lab_inventory.Federation.Reissuing.{Reissued, issued, unchanged_codes}
use lab_inventory.Federation.Trusts.{trust_count, find_trust}
use lab_inventory.Federation.Access.{
  IsPaired, accept_pairing-IsPaired, accept_pairing_once, revoke_trust_refuses,
}
use lab_inventory.Federation.Tests.{
  crypto, show, format, settings, node, trust, code, store, caller, request, at, context,
}

abbrev there : Url
there = record {
  scheme = "https";
  username = "";
  password = none;
  host_str = some "203.0.114.9";
  port = none;
  path = "/";
  shown = "https://203.0.114.9";
}

abbrev ops : UrlOps
ops = record {
  parse_url = λ s. some there;
  parse_ip = λ s. some (v4 record { a = 203; b = 0; c = 114; d = 9 });
  show_port = show;
  to_ascii_lowercase = λ s. s;
  trim_end_slashes = λ s. s;
}

allows : normalize_base_url ops "https://203.0.114.9/" settings ≡ ok "https://203.0.114.9"
unfolding normalize_base_url
allows = refl

abbrev address : Ipv4Addr
address = record { a = 203; b = 0; c = 114; d = 9 }

no_name : ◌≢◌ {A = String} "203.0.114.9" "localhost"
no_name h = let same = (eq_iff "203.0.114.9" "localhost").1 h in cc

normalize_base_url-IsAllowed_example :
    IsAllowed ops settings there "203.0.114.9" address "https://203.0.114.9"
normalize_base_url-IsAllowed_example =
    normalize_base_url-IsAllowed ops settings "https://203.0.114.9/" "https://203.0.114.9" there
      "203.0.114.9" address refl refl refl no_name allows

-- The host of `https://[::1]/` is `[::1]`, which is no address.
abbrev loopback : Url
loopback = record there { host_str = some "[::1]"; shown = "https://[::1]" }

abbrev no_ip : UrlOps
no_ip = record ops { parse_ip = λ s. none }

allows_loopback : validate_remote_url no_ip loopback settings ≡ ok tt
unfolding validate_remote_url
allows_loopback = refl

abbrev payload : AcceptPairingData
payload = record {
  pairing_code = 0x2a ∷ [];
  requester_node_id = 5;
  requester_base_url = "https://203.0.114.9/";
  requester_laboratory_id = 8;
  requester_laboratory_name = "Elsewhere";
  shared_secret = "stolen";
  shared_secret_bytes = [];
  tls_certificate_sha256 = none;
}

abbrev names : ℕ → Option String
names id = some "Here"

abbrev response : AcceptPairingResponse
response = record {
  node_id = 9;
  public_base_url = "https://here.example";
  laboratory_id = 2;
  laboratory_name = "Here";
  tls_certificate_sha256 = none;
  key_version = 1;
}

abbrev taken_over : Store
taken_over = record store {
  nodes =
      record {
        remote_node_id = 5;
        base_url = "https://203.0.114.9";
        display_name = some "Elsewhere";
        shared_secret = "stolen";
        shared_secret_hash = "";
        tls_certificate_sha256 = none;
        status = "active";
        key_version = 1;
      }
      ∷ [];
  trusts =
      trust "active"
      ∷ record {
        trust_id = 31;
        local_laboratory_id = 2;
        remote_node_id = 5;
        remote_laboratory_id = 8;
        status = "active";
      }
      ∷ [];
  codes = code (some 1000) ∷ [];
}

pairs :
    accept_pairing crypto format ops settings (some 9) names 1000 31 payload store
    ≡ ok (response, taken_over)
unfolding accept_pairing
pairs = refl

-- A code of laboratory 2 replaces the secret of node 5, which laboratory 1 trusts.
accepts_taken_over :
    (verify_inbound_request crypto format settings
      (at 1000)
      1
      (sent crypto format 1200 "n2" "GET" "/assets" []
        (record node { shared_secret = "stolen" })
        caller)
      taken_over).1
    ≡ ok record context { remote_node = get_or taken_over.nodes 0 node }
unfolding verify_inbound_request signed_headers
accepts_taken_over = refl

accept_pairing-IsPaired_example :
    IsPaired crypto format ops settings (some 9) names 1000 payload store taken_over response
accept_pairing-IsPaired_example =
    accept_pairing-IsPaired crypto format ops settings (some 9) names 1000 31 payload store
      taken_over response pairs

one_hash : hash_count "2a" store.codes ≤ 1
unfolding hash_count
one_hash = omega arith

inserts :
    insert_pairing_code 41 2 "2b" 1900 taken_over.codes
    ≡ ok (
        record {
          pairing_code_id = 41;
          local_laboratory_id = 2;
          code_hash = "2b";
          expires_at = 1900;
          consumed_at = none;
        }
        ∷ taken_over.codes)
unfolding insert_pairing_code
inserts = refl

-- Another code is issued after the pairing.
abbrev reissued : Store
reissued = record taken_over {
  codes =
      record {
        pairing_code_id = 41;
        local_laboratory_id = 2;
        code_hash = "2b";
        expires_at = 1900;
        consumed_at = none;
      }
      ∷ taken_over.codes;
}

issued_again : Reissued taken_over.codes reissued.codes
issued_again = issued 41 2 "2b" 1900 taken_over.codes reissued.codes unchanged_codes inserts

accept_pairing_once_example :
    accept_pairing crypto format ops settings (some 9) names 1001 32 payload reissued
    ≢ ok (response, store)
accept_pairing_once_example =
    accept_pairing_once crypto format ops settings (some 9) names 1000 31 1001 32 payload payload
      store taken_over reissued response response store one_hash pairs issued_again refl

abbrev no_row : ℕ → Result DbError (Option ℕ)
no_row id = ok none

abbrev pool : Database
pool = record {
  unit_laboratory = no_row;
  location_laboratory = no_row;
  asset_category_laboratory = no_row;
  asset_parameter_laboratory = no_row;
  asset_laboratory = no_row;
  inventory_item_laboratory = no_row;
  label_printer_laboratory = no_row;
  file_upload = λ id. ok none;
  attachment_assignment = λ id. ok none;
  actor_row = λ id. ok none;
}

abbrev head : LaboratoryContext
head = record {
  actor = record { user_id = 10; user_type = lab_admin; laboratory_id = some 1 };
  laboratory_id = 1;
}

abbrev revoked : Store
revoked = record store {
  trusts = trust "revoked" ∷ [];
  audit = record { actor_id = 10; trust_id = 30 } ∷ [];
}

revokes : revoke_trust pool settings head 30 store ≡ ok revoked
unfolding revoke_trust can_manage_federation authorization_actor
revokes = refl

found : find_trust 1 30 store.trusts ≡ some (trust "active")
unfolding find_trust
found = refl

one_trust : trust_count 1 5 6 store.trusts ≤ 1
unfolding trust_count
one_trust = omega arith

abbrev said : InboundHeaders
said = record {
  remote_node_id = 5;
  key_version = 1;
  timestamp = 1200;
  nonce = "n1";
  signature = "Bwg=";
  remote_laboratory_id = 6;
  remote_user_id = 7;
  remote_username = "ada";
  remote_user_type = "user";
}

says : read_headers format request.headers ≡ ok said
unfolding read_headers signed_headers
says = refl

revoke_trust_refuses_example :
    (verify_inbound_request crypto format settings (at 1000) 1 request revoked).1 ≢ ok context
revoke_trust_refuses_example =
    revoke_trust_refuses crypto format settings pool head 30 store revoked revoked (trust "active")
      (at 1000) request said context found one_trust revokes refl says refl refl
