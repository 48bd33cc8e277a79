-- ===== src/Federation/Genuine.antt =====
-- What an inbound request that is accepted has proved: `verify_inbound_request` of
-- backend/src/routes/federation/security.rs.
use text.Mathlib.Text.{◌==◌ as str_eq}
use text.Mathlib.TextEquality.{eq_iff}
use mathlib.Core.Path.{subst}
use lab_inventory.Common.{
  ℕ, ◌+◌, ◌≡◌, ◌≢◌, refl, sym, ap, ◌∙◌, arith, String, true, false, not, ◌&&◌, ◌||◌, some, List,
  ◌∷◌, ◌==◌, ==_iff, ◌⊎◌, inl, inr, Bool-cases, Result, ok, err, ok_or, >>=-eq-ok, guard-eq-ok,
  ok-injective, ok_or-eq-ok, not-eq-true, and-eq-true,
}
use lab_inventory.Federation.{
  Settings, Store, TrustRow, NonceRow, SecurityError, unauthorized, forbidden, Crypto, Formats,
  HttpRequest, InboundContext, DatabaseError,
}
use lab_inventory.Federation.Signing.{verify_signature}
use lab_inventory.Federation.Nonces.{
  remember_nonce, remembered, delete_expired_nonces, nonce_taken, insert_nonce,
}
use lab_inventory.Federation.Inbound.{
  Clock, is_fresh, fetch_remote_node, fetch_active_trust, InboundHeaders, read_headers,
  expected_signature, check_headers, verify_headers, spend_nonce, with_nonce,
  verify_inbound_request,
}
use lab_inventory.Federation.Signatures.{verify_signature_iff}

-- The nonces after a request was accepted: the ones that had not expired, and its own, which was not
-- among them.
pub record IsSpent (clock : Clock) (node_id : ℕ) (nonce : String) (ttl_seconds : ℕ)
    (before after : List NonceRow) : Type 0 where
  pub unused : nonce_taken node_id nonce (delete_expired_nonces clock.swept_at before) ≡ false
  pub stored :
      after
      ≡ record {
        remote_node_id = node_id;
        nonce = nonce;
        expires_at = clock.stored_at + ttl_seconds;
      }
        ∷ delete_expired_nonces clock.swept_at before

insert_nonce-eq-ok :
    (now node_id : ℕ) (nonce : String) (ttl_seconds : ℕ) (rows after : List NonceRow)
    → insert_nonce now node_id nonce ttl_seconds rows ≡ ok after
    → (nonce_taken node_id nonce rows ≡ false)
      × (after
          ≡ record { remote_node_id = node_id; nonce = nonce; expires_at = now + ttl_seconds }
            ∷ rows)
unfolding insert_nonce
insert_nonce-eq-ok now node_id nonce ttl_seconds rows after h = ground arith

remembered-eq-ok :
    (swept rows : List NonceRow) (result : Result DatabaseError (List NonceRow))
    → remembered swept result ≡ (rows, ok tt)
    → result ≡ ok rows
remembered-eq-ok swept rows (ok after) h = ap (λ p. ok p.0) h
remembered-eq-ok swept rows (err e) h = let bad = ap (λ p. p.1) h in cc

pub remember_nonce-IsSpent :
    (clock : Clock) (node_id : ℕ) (nonce : String) (ttl_seconds : ℕ) (rows after : List NonceRow)
    → remember_nonce clock.swept_at clock.stored_at node_id nonce ttl_seconds rows ≡ (after, ok tt)
    → IsSpent clock node_id nonce ttl_seconds rows after
unfolding remember_nonce
remember_nonce-IsSpent clock node_id nonce ttl_seconds rows after h =
    let (unused, stored) =
      insert_nonce-eq-ok clock.stored_at node_id nonce ttl_seconds
        (delete_expired_nonces clock.swept_at rows) after (remembered-eq-ok _ after _ h) in
    record { unused = unused; stored = stored }

module _ (crypto : Crypto) (format : Formats) (settings : Settings) where
  -- The caller that the headers name is vouched for by an active node with an active trust.
  pub record IsGenuine (now laboratory_id : ℕ) (req : HttpRequest) (store : Store)
      (said : InboundHeaders) (context : InboundContext) : Type 0 where
    pub node_known : fetch_remote_node said.remote_node_id store.nodes ≡ some context.remote_node
    pub node_active : context.remote_node.status ≡ "active"
    pub key : context.remote_node.key_version ≡ said.key_version
    pub trust : TrustRow
    pub trusted :
        fetch_active_trust laboratory_id said.remote_node_id said.remote_laboratory_id store.trusts
        ≡ some trust
    pub laboratory : context.remote_laboratory_id ≡ said.remote_laboratory_id
    pub user : context.remote_user_id ≡ said.remote_user_id
    pub named : (context.remote_username ≡ said.remote_username) × (said.remote_username ≢ "")
    pub typed :
        (context.remote_user_type ≡ said.remote_user_type)
        × ((said.remote_user_type ≡ "lab_admin") ⊎ (said.remote_user_type ≡ "user"))
    pub fresh : is_fresh now said.timestamp settings.request_ttl_seconds ≡ true
    pub signed :
        (bytes : List ℕ) × (crypto.decode said.signature ≡ some bytes)
        × (crypto.decode (expected_signature crypto format req said context.remote_node)
            ≡ some bytes)

  type_of :
      (a : String)
      → (str_eq a "lab_admin" || str_eq a "user") ≡ true
      → (a ≡ "lab_admin") ⊎ (a ≡ "user")
  type_of a h = elim (Bool-cases (str_eq a "lab_admin")) [
    | inl admin ↦ inl ((eq_iff a "lab_admin").0 admin)
    | inr other ↦ inr ((eq_iff a "user").0 (sym (ap (λ b. b || str_eq a "user") other) ∙ h))
  ]

  not_empty : (a : String) → not (str_eq a "") ≡ true → a ≢ ""
  not_empty a h e = let empty = (eq_iff a "").1 e in let filled = not-eq-true _ h in cc

  check_headers-IsGenuine :
      (now laboratory_id : ℕ) (req : HttpRequest) (store : Store) (said : InboundHeaders)
      (context : InboundContext)
      → check_headers crypto format settings now laboratory_id req store said ≡ ok context
      → IsGenuine now laboratory_id req store said context
  unfolding check_headers
  check_headers-IsGenuine now laboratory_id req store said context h =
      let (typed, h1) =
        guard-eq-ok
          (str_eq said.remote_user_type "lab_admin" || str_eq said.remote_user_type "user") _ _ h in
      let (named, h2) = guard-eq-ok (not (str_eq said.remote_username "")) _ _ h1 in
      let (fresh, h3) =
        guard-eq-ok (is_fresh now said.timestamp settings.request_ttl_seconds) _ _ h2 in
      let (node, known, h4) =
        >>=-eq-ok (ok_or (fetch_remote_node said.remote_node_id store.nodes) unauthorized) _ h3 in
      let (current, h5) =
        guard-eq-ok (str_eq node.status "active" && node.key_version == said.key_version) _ _ h4 in
      let (active, version) = and-eq-true _ _ current in
      let (trust, trusted, h6) =
        >>=-eq-ok
          (ok_or
            (fetch_active_trust laboratory_id said.remote_node_id said.remote_laboratory_id
              store.trusts)
            forbidden)
          _ h5 in
      let (done, verified, h7) =
        >>=-eq-ok
          (verify_signature crypto said.signature (expected_signature crypto format req said node))
          _ h6 in
      subst (IsGenuine now laboratory_id req store said) (ok-injective h7) record {
        node_known = ok_or-eq-ok _ _ _ known;
        node_active = (eq_iff node.status "active").0 active;
        key = (==_iff node.key_version said.key_version).0 version;
        trust = trust;
        trusted = ok_or-eq-ok _ _ _ trusted;
        laboratory = refl;
        user = refl;
        named = (refl, not_empty _ named);
        typed = (refl, type_of _ typed);
        fresh = fresh;
        signed =
            (verify_signature_iff crypto said.signature
                (expected_signature crypto format req said node)).0
              verified;
      }

  pub record IsAccepted (clock : Clock) (laboratory_id : ℕ) (req : HttpRequest)
      (store store' : Store) (context : InboundContext) : Type 0 where
    pub enabled : settings.enabled ≡ true
    pub said : InboundHeaders
    pub headers : read_headers format req.headers ≡ ok said
    pub genuine : IsGenuine clock.now laboratory_id req store said context
    pub spent :
        IsSpent clock said.remote_node_id said.nonce settings.request_ttl_seconds store.nonces
          store'.nonces
    pub kept : (store'.nodes ≡ store.nodes) × (store'.trusts ≡ store.trusts)

  with_nonce-eq-ok :
      (context context' : InboundContext) (store store' : Store)
      (p : List NonceRow × Result SecurityError (Unit {0}))
      → with_nonce context store p ≡ (store', ok context')
      → (context ≡ context')
        × (p ≡ (store'.nonces, ok tt))
        × ((store'.nodes ≡ store.nodes) × (store'.trusts ≡ store.trusts))
  with_nonce-eq-ok context context' store store' (rows, ok done) h = (
    ok-injective (ap (λ p. p.1) h),
    ap (λ p. (p.0.nonces, ok tt)) h,
    (ap (λ p. p.0.nodes) (sym h), ap (λ p. p.0.trusts) (sym h)),
  )
  with_nonce-eq-ok context context' store store' (rows, err e) h = let bad = ap (λ p. p.1) h in cc

  spend_nonce-IsAccepted :
      (clock : Clock) (laboratory_id : ℕ) (req : HttpRequest) (store store' : Store)
      (said : InboundHeaders) (checked : Result SecurityError InboundContext)
      (context : InboundContext)
      → settings.enabled ≡ true
      → read_headers format req.headers ≡ ok said
      → check_headers crypto format settings clock.now laboratory_id req store said ≡ checked
      → spend_nonce crypto format settings clock store said checked ≡ (store', ok context)
      → IsAccepted clock laboratory_id req store store' context
  spend_nonce-IsAccepted clock laboratory_id req store store' said (ok found) context on read checks
        h =
      let (same, remembers, kept) = with_nonce-eq-ok found context store store' _ h in
      record {
        enabled = on;
        said = said;
        headers = read;
        genuine =
            check_headers-IsGenuine clock.now laboratory_id req store said context
              (checks ∙ ap ok same);
        spent =
            remember_nonce-IsSpent clock said.remote_node_id said.nonce settings.request_ttl_seconds
              store.nonces store'.nonces remembers;
        kept = kept;
      }
  spend_nonce-IsAccepted clock laboratory_id req store store' said (err e) context on read checks
        h =
      let bad = ap (λ p. p.1) h in cc

  verify_headers-IsAccepted :
      (clock : Clock) (laboratory_id : ℕ) (req : HttpRequest) (store store' : Store)
      (read : Result SecurityError InboundHeaders) (context : InboundContext)
      → settings.enabled ≡ true
      → read_headers format req.headers ≡ read
      → verify_headers crypto format settings clock laboratory_id req store read
        ≡ (store', ok context)
      → IsAccepted clock laboratory_id req store store' context
  verify_headers-IsAccepted clock laboratory_id req store store' (ok said) context on read h =
      spend_nonce-IsAccepted clock laboratory_id req store store' said _ context on read refl h
  verify_headers-IsAccepted clock laboratory_id req store store' (err e) context on read h =
      let bad = ap (λ p. p.1) h in cc

  -- A request that is accepted comes from a node that is known and active, at its key version, with
  -- an active trust between the two laboratories; its headers name an administrator or a user; its
  -- timestamp is fresh; its signature is the one over its method, path, body and headers with the
  -- node's secret; and its nonce, which was not in use, is stored.
  pub verify_inbound_request-IsAccepted :
      (clock : Clock) (laboratory_id : ℕ) (req : HttpRequest) (store store' : Store)
      (context : InboundContext)
      → verify_inbound_request crypto format settings clock laboratory_id req store
        ≡ (store', ok context)
      → IsAccepted clock laboratory_id req store store' context
  unfolding verify_inbound_request
  verify_inbound_request-IsAccepted clock laboratory_id req store store' context h =
      elim (Bool-cases settings.enabled) [
        | inl on ↦
            verify_headers-IsAccepted clock laboratory_id req store store'
              (read_headers format req.headers) context on refl (rw on at h)
        | inr off ↦ let bad = ap (λ p. p.1) (rw off at h) in cc
      ]
