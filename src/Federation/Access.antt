-- ===== src/Federation/Access.antt =====
-- Who gets access by pairing, and loses it: `accept_pairing`, `revoke_trust` and
-- `verify_inbound_request` of backend/src/routes/federation.
use text.Mathlib.Text.{◌==◌ as str_eq}
use mathlib.Core.Path.{subst}
use lab_inventory.Common.{
  Among, ℕ, ◌≤◌, ◌≡◌, ◌≢◌, refl, sym, ap, ◌∙◌, String, Bool, true, not, Option, some, List, [], ◌∷◌,
  ◌==◌, ==_refl, Bool-cases, inl, inr, Result, ok, err, ok_or, guard, ◌>>=◌, ◌>>◌, >>=-eq-ok,
  guard-eq-ok, ok-injective, ok_or-eq-ok,
}
use lab_inventory.AccessControl.{Database, federation, delete}
use lab_inventory.AccessControl.Actors.{LaboratoryContext, authorization_actor}
use lab_inventory.AccessControl.Permissions.{validate_permission}
use lab_inventory.Federation.{
  Settings, RemoteNodeRow, TrustRow, PairingCodeRow, Store, DatabaseError, db_validation,
  db_conflict, db_unexpected, Crypto, Formats, HttpRequest, InboundContext,
}
use lab_inventory.Federation.Signing.{sha256_hex}
use lab_inventory.Federation.Targets.{UrlOps, TargetError, normalize_base_url}
use lab_inventory.Federation.Inbound.{
  Clock, fetch_remote_node, fetch_active_trust, read_headers, InboundHeaders,
  verify_inbound_request,
}
use lab_inventory.Federation.Genuine.{verify_inbound_request-IsAccepted}
use lab_inventory.Federation.Pairing.{
  PairingError, validation_error, unexpected_error, not_found, forbidden, of_database, of_target,
  of_permission, consume_pairing_code, base_url_taken, put_node, upsert_remote_node,
  revoke_trust_in_database, AcceptPairingData, AcceptPairingResponse, paired_node, accept_pairing,
  revoke_trust,
}
use lab_inventory.Federation.Codes.{
  hash_count, IsUsable, consume_pairing_code-IsUsable, consume_pairing_code-is_used_up,
}
use lab_inventory.Federation.Reissuing.{
  Reissued, Reissued-IsSpentCode, consume_pairing_code-IsSpentCode,
}
use lab_inventory.Federation.Authentic.{IsInForce, fetch_active_trust-IsInForce}
use lab_inventory.Federation.Trusts.{
  trust_count, find_trust, fetch_active_trust-upsert_trust, revoked_trust,
}

of_database-eq-ok :
    {A : Type 0} (result : Result DatabaseError A) (a : A)
    → of_database result ≡ ok a
    → result ≡ ok a
of_database-eq-ok (ok value) a h = ap ok (ok-injective h)
of_database-eq-ok (err db_validation) a h = cc
of_database-eq-ok (err db_conflict) a h = cc
of_database-eq-ok (err db_unexpected) a h = cc

of_target-eq-ok :
    {A : Type 0} (result : Result TargetError A) (a : A) → of_target result ≡ ok a → result ≡ ok a
of_target-eq-ok (ok value) a h = ap ok (ok-injective h)
of_target-eq-ok (err e) a h = cc

fetch_remote_node-put_node :
    (node : RemoteNodeRow) (nodes : List RemoteNodeRow)
    → fetch_remote_node node.remote_node_id (put_node node nodes) ≡ some node
unfolding fetch_remote_node put_node
fetch_remote_node-put_node node [] = rw (==_refl node.remote_node_id)
fetch_remote_node-put_node node (row ∷ rows) =
    elim (Bool-cases (row.remote_node_id == node.remote_node_id)) [
      | inl same ↦ rw (same, ==_refl node.remote_node_id)
      | inr other ↦ rw (other, other) (fetch_remote_node-put_node node rows)
    ]

fetch_remote_node-upsert_remote_node :
    (node : RemoteNodeRow) (nodes after : List RemoteNodeRow)
    → upsert_remote_node node nodes ≡ ok after
    → fetch_remote_node node.remote_node_id after ≡ some node
unfolding upsert_remote_node
fetch_remote_node-upsert_remote_node node nodes after h =
    elim (Bool-cases (base_url_taken node.remote_node_id node.base_url nodes)) [
      | inl taken ↦ let bad = rw taken at h in cc
      | inr free ↦
          subst (λ rows. fetch_remote_node node.remote_node_id rows ≡ some node)
            (ok-injective (rw free at h)) (fetch_remote_node-put_node node nodes)
    ]

module _ (crypto : Crypto) (format : Formats) (ops : UrlOps) (settings : Settings)
    (local_node : Option ℕ) (laboratories : ℕ → Option String) where
  pub record IsPaired (now : ℕ) (payload : AcceptPairingData) (store store' : Store)
      (response : AcceptPairingResponse) : Type 0 where
    pub enabled : settings.enabled ≡ true
    pub base_url : String
    pub allowed : normalize_base_url ops payload.requester_base_url settings ≡ ok base_url
    pub code : PairingCodeRow
    pub code_stored : Among code store.codes
    pub usable : IsUsable now (sha256_hex crypto payload.pairing_code) code
    pub consumed :
        consume_pairing_code now (sha256_hex crypto payload.pairing_code) store.codes
        ≡ some (code, store'.codes)
    pub laboratory : response.laboratory_id ≡ code.local_laboratory_id
    pub trust : TrustRow
    pub trust_stored : Among trust store'.trusts
    pub in_force :
        IsInForce code.local_laboratory_id payload.requester_node_id payload.requester_laboratory_id
          trust
    pub node : RemoteNodeRow
    pub node_found : fetch_remote_node payload.requester_node_id store'.nodes ≡ some node
    pub node_active : node.status ≡ "active"
    pub node_secret : node.shared_secret ≡ payload.shared_secret
    pub node_base_url : node.base_url ≡ base_url
    pub nonces_kept : store'.nonces ≡ store.nonces

  -- A pairing that is accepted used a stored pairing code with the hash of the one that was sent, which
  -- had not been consumed and had not expired. Afterwards a stored trust of the laboratory of the code
  -- with the requester's node and laboratory is active, and the requester's node is active, with the
  -- secret that it sent, at the base url that was allowed.
  pub accept_pairing-IsPaired :
      (now fresh : ℕ) (payload : AcceptPairingData) (store store' : Store)
      (response : AcceptPairingResponse)
      → accept_pairing crypto format ops settings local_node laboratories now fresh payload store
        ≡ ok (response, store')
      → IsPaired now payload store store' response
  unfolding accept_pairing
  accept_pairing-IsPaired now fresh payload store store' response h =
      let (enabled, h1) = guard-eq-ok settings.enabled _ _ h in
      let (base_url, allowed, h2) =
        >>=-eq-ok (of_target (normalize_base_url ops payload.requester_base_url settings)) _ h1 in
      let (filled, h3) = guard-eq-ok (not (str_eq (format.trim payload.shared_secret) "")) _ _ h2 in
      let (node_id, identified, h4) = >>=-eq-ok (ok_or local_node unexpected_error) _ h3 in
      let ((code, codes), consumed, h5) =
        >>=-eq-ok
          (ok_or (consume_pairing_code now (sha256_hex crypto payload.pairing_code) store.codes)
            validation_error)
          _ h4 in
      let (name, named, h6) =
        >>=-eq-ok (ok_or (laboratories code.local_laboratory_id) unexpected_error) _ h5 in
      let (nodes, stored, h7) =
        >>=-eq-ok
          (of_database (upsert_remote_node (paired_node crypto payload base_url) store.nodes)) _
          h6 in
      let done = ok-injective h7 in
      let (trust, active) =
        fetch_active_trust-upsert_trust fresh code.local_laboratory_id payload.requester_node_id
          payload.requester_laboratory_id store.trusts in
      let read_code = ok_or-eq-ok _ _ _ consumed in
      let usable =
        consume_pairing_code-IsUsable now (sha256_hex crypto payload.pairing_code) store.codes codes
          code read_code in
      let in_force =
        fetch_active_trust-IsInForce code.local_laboratory_id payload.requester_node_id
          payload.requester_laboratory_id store'.trusts trust
          (ap
              (λ p.
                fetch_active_trust code.local_laboratory_id payload.requester_node_id
                  payload.requester_laboratory_id p.1.trusts)
              (sym done)
            ∙ active) in
      record {
        enabled = enabled;
        base_url = base_url;
        allowed = of_target-eq-ok _ _ allowed;
        code = code;
        code_stored = usable.0;
        usable = usable.1;
        consumed = read_code ∙ ap (λ p. some (code, p.1.codes)) done;
        laboratory = ap (λ p. p.0.laboratory_id) (sym done);
        trust = trust;
        trust_stored = in_force.0;
        in_force = in_force.1;
        node = paired_node crypto payload base_url;
        node_active = refl;
        node_secret = refl;
        node_base_url = refl;
        node_found =
            ap (λ p. fetch_remote_node payload.requester_node_id p.1.nodes) (sym done)
            ∙ fetch_remote_node-upsert_remote_node (paired_node crypto payload base_url) store.nodes
                nodes (of_database-eq-ok _ _ stored);
        nonces_kept = ap (λ p. p.1.nonces) (sym done);
      }

  -- A pairing code that was accepted is refused afterwards, at any time and for any requester, whatever
  -- codes were issued and consumed in between. The hash of the code was stored at most once.
  pub accept_pairing_once :
      (now fresh now' fresh' : ℕ) (payload payload' : AcceptPairingData)
      (store store' later : Store) (response response' : AcceptPairingResponse) (after : Store)
      → hash_count (sha256_hex crypto payload.pairing_code) store.codes ≤ 1
      → accept_pairing crypto format ops settings local_node laboratories now fresh payload store
        ≡ ok (response, store')
      → Reissued store'.codes later.codes
      → payload'.pairing_code ≡ payload.pairing_code
      → accept_pairing crypto format ops settings local_node laboratories now' fresh' payload' later
        ≢ ok (response', after)
  accept_pairing_once now fresh now' fresh' payload payload' store store' later response response'
        after unique first reissued same_code second =
      let paired = accept_pairing-IsPaired now fresh payload store store' response first in
      let again = accept_pairing-IsPaired now' fresh' payload' later after response' second in
      let hash = sha256_hex crypto payload.pairing_code in
      let spent = Reissued-IsSpentCode hash store'.codes later.codes reissued (
        consume_pairing_code-IsSpentCode now hash store.codes store'.codes paired.code unique
          paired.consumed) in
      let gone = consume_pairing_code-is_used_up now' hash later.codes spent.0 in
      let taken =
        ap (λ c. consume_pairing_code now' (sha256_hex crypto c) later.codes) (sym same_code)
        ∙ again.consumed in
      cc

revoke_trust-eq-ok :
    (pool : Database) (settings : Settings) (context : LaboratoryContext) (trust_id : ℕ)
    (store revoked : Store)
    → revoke_trust pool settings context trust_id store ≡ ok revoked
    → revoke_trust_in_database context.laboratory_id trust_id store.trusts ≡ some revoked.trusts
unfolding revoke_trust
revoke_trust-eq-ok pool settings context trust_id store revoked h =
    let write : List TrustRow → Result PairingError Store = λ trusts. ok record store {
      trusts = trusts;
      audit = record { actor_id = context.actor.user_id; trust_id = trust_id } ∷ store.audit;
    } in
    let next : Bool → Result PairingError Store = λ granted.
      guard granted forbidden
      >> (ok_or (revoke_trust_in_database context.laboratory_id trust_id store.trusts) not_found
          >>= write) in
    let (enabled, h1) = guard-eq-ok settings.enabled _ _ h in
    let (granted, permitted, h2) =
      >>=-eq-ok
        (of_permission (
          validate_permission pool (authorization_actor context) federation
            (delete context.laboratory_id)))
        next h1 in
    let (allowed, h3) = guard-eq-ok granted forbidden _ h2 in
    let (trusts, updated, h4) =
      >>=-eq-ok
        (ok_or (revoke_trust_in_database context.laboratory_id trust_id store.trusts) not_found)
        write h3 in
    ok_or-eq-ok _ _ _ updated ∙ ap (λ s. some s.trusts) (ok-injective h4)

-- Once a trust was revoked, no request for its laboratory from its node and remote laboratory is
-- accepted while the trusts stay as they are. There is at most one trust between two laboratories.
pub revoke_trust_refuses :
    (crypto : Crypto) (format : Formats) (settings : Settings) (pool : Database)
    (context : LaboratoryContext) (trust_id : ℕ) (store revoked later : Store) (trust : TrustRow)
    (clock : Clock) (req : HttpRequest) (said : InboundHeaders) (caller : InboundContext)
    → find_trust context.laboratory_id trust_id store.trusts ≡ some trust
    → trust_count context.laboratory_id trust.remote_node_id trust.remote_laboratory_id store.trusts
      ≤ 1
    → revoke_trust pool settings context trust_id store ≡ ok revoked
    → later.trusts ≡ revoked.trusts
    → read_headers format req.headers ≡ ok said
    → said.remote_node_id ≡ trust.remote_node_id
    → said.remote_laboratory_id ≡ trust.remote_laboratory_id
    → (verify_inbound_request crypto format settings clock context.laboratory_id req later).1
      ≢ ok caller
revoke_trust_refuses crypto format settings pool context trust_id store revoked later trust clock
      req said caller found unique revokes same read from_node from_laboratory accepted =
    let l = context.laboratory_id in
    let gone =
      revoked_trust l trust_id trust.remote_node_id trust.remote_laboratory_id store.trusts
        revoked.trusts trust unique found refl refl
        (revoke_trust-eq-ok pool settings context trust_id store revoked revokes) in
    let call =
      verify_inbound_request-IsAccepted crypto format settings clock l req later
        (verify_inbound_request crypto format settings clock l req later).0 caller
        (ap (λ r. ((verify_inbound_request crypto format settings clock l req later).0, r))
          accepted) in
    let heard = ok-injective (sym call.headers ∙ read) in
    let node = ap (λ s. s.remote_node_id) heard ∙ from_node in
    let laboratory = ap (λ s. s.remote_laboratory_id) heard ∙ from_laboratory in
    let trusted =
      ap (λ ts. fetch_active_trust l trust.remote_node_id trust.remote_laboratory_id ts) (sym same)
      ∙ ap (λ n. fetch_active_trust l n trust.remote_laboratory_id later.trusts) (sym node)
      ∙ ap (λ r. fetch_active_trust l call.said.remote_node_id r later.trusts) (sym laboratory)
      ∙ call.genuine.trusted in
    let clash = sym gone ∙ trusted in cc
