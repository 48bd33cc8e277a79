-- ===== src/Federation/Trusts.antt =====
-- What pairing and revoking do to the trusts: `accept_pairing` and `revoke_trust` of
-- backend/src/routes/federation, and what `verify_inbound_request` makes of it.
use mathlib.Core.Option.{some-injective}
use lab_inventory.Common.{
  ℕ, suc, ◌≤◌, ◌≡◌, refl, sym, ap, ◌∙◌, arith, Bool, true, false, ◌&&◌, Option, none, some, List,
  [], ◌∷◌, ◌==◌, ==_iff, ==_refl, Bool-cases, inl, inr, if◌then◌else◌, and-eq-true,
}
use lab_inventory.Federation.{TrustRow}
use lab_inventory.Federation.Inbound.{fetch_active_trust}
use lab_inventory.Federation.Pairing.{is_between, upsert_trust, kept, revoke_trust_in_database}

-- The number of trusts between two laboratories, at most 1 by the unique columns.
unfoldable pub trust_count : ℕ → ℕ → ℕ → List TrustRow → ℕ
trust_count l n r [] = 0
trust_count l n r (row ∷ rows) =
    let rest = trust_count l n r rows in if is_between l n r row then suc rest else rest

-- The trust of the laboratory with an id.
unfoldable pub find_trust : ℕ → ℕ → List TrustRow → Option TrustRow
find_trust l id [] = none
find_trust l id (row ∷ rows) =
    let rest = find_trust l id rows in
    if row.local_laboratory_id == l && row.trust_id == id then some row else rest

pub fetch_active_trust-upsert_trust :
    (fresh l n r : ℕ) (rows : List TrustRow)
    → (trust : TrustRow) × (fetch_active_trust l n r (upsert_trust fresh l n r rows) ≡ some trust)
unfolding fetch_active_trust upsert_trust
fetch_active_trust-upsert_trust fresh l n r [] = (
  record {
    trust_id = fresh;
    local_laboratory_id = l;
    remote_node_id = n;
    remote_laboratory_id = r;
    status = "active";
  },
  rw (==_refl l, ==_refl n, ==_refl r),
)
fetch_active_trust-upsert_trust fresh l n r (row ∷ rows) =
    elim (Bool-cases (is_between l n r row)) [
      | inl same ↦ (record row { status = "active" }, rw (same, same))
      | inr other ↦
          let (trust, found) = fetch_active_trust-upsert_trust fresh l n r rows in
          (trust, rw (other, other) found)
    ]

trust_count-upsert_trust_self :
    (fresh l n r : ℕ) (rows : List TrustRow)
    → trust_count l n r rows ≤ 1
    → trust_count l n r (upsert_trust fresh l n r rows) ≤ 1
unfolding trust_count upsert_trust
trust_count-upsert_trust_self fresh l n r [] one = ground arith
trust_count-upsert_trust_self fresh l n r (row ∷ rows) one =
    elim (Bool-cases (is_between l n r row)) [
      | inl same ↦ rw (same, same) (rw same at one)
      | inr other ↦
          rw (other, other) (trust_count-upsert_trust_self fresh l n r rows (rw other at one))
    ]

trust_count-upsert_trust_ne :
    (fresh l n r l' n' r' : ℕ) (rows : List TrustRow)
    → (l == l' && n == n' && r == r') ≡ false
    → trust_count l' n' r' (upsert_trust fresh l n r rows) ≡ trust_count l' n' r' rows
unfolding trust_count upsert_trust
trust_count-upsert_trust_ne fresh l n r l' n' r' [] other = ground arith
trust_count-upsert_trust_ne fresh l n r l' n' r' (row ∷ rows) other =
    ground (arith, trust_count-upsert_trust_ne fresh l n r l' n' r' rows other)

-- A pairing leaves at most one trust between two laboratories.
pub trust_count-upsert_trust :
    (fresh l n r l' n' r' : ℕ) (rows : List TrustRow)
    → trust_count l' n' r' rows ≤ 1
    → trust_count l' n' r' (upsert_trust fresh l n r rows) ≤ 1
trust_count-upsert_trust fresh l n r l' n' r' rows one =
    elim (Bool-cases (l == l' && n == n' && r == r')) [
      | inl same ↦ ground (arith, same, one, trust_count-upsert_trust_self fresh l n r rows)
      | inr other ↦ rw (trust_count-upsert_trust_ne fresh l n r l' n' r' rows other) one
    ]

no_trust :
    (l n r : ℕ) (rows : List TrustRow)
    → trust_count l n r rows ≡ 0
    → fetch_active_trust l n r rows ≡ none
unfolding trust_count fetch_active_trust
no_trust l n r [] h = refl
no_trust l n r (row ∷ rows) h = ground (arith, no_trust l n r rows)

find_trust-trust_count :
    (l id n r : ℕ) (rows : List TrustRow) (trust : TrustRow)
    → find_trust l id rows ≡ some trust
    → trust.remote_node_id ≡ n
    → trust.remote_laboratory_id ≡ r
    → 1 ≤ trust_count l n r rows
unfolding find_trust trust_count
find_trust-trust_count l id n r [] trust found node laboratory = cc
find_trust-trust_count l id n r (row ∷ rows) trust found node laboratory =
    ground (arith, find_trust-trust_count l id n r rows trust)

kept-eq-some :
    (row : TrustRow) (o : Option (List TrustRow)) (after : List TrustRow)
    → kept row o ≡ some after
    → (rows : List TrustRow) × (o ≡ some rows) × (row ∷ rows ≡ after)
kept-eq-some row none after h = cc
kept-eq-some row (some rows) after h = (rows, refl, some-injective _ _ h)

inactive : (a : Bool) → (a && false) ≡ false
inactive true = refl
inactive false = refl

pub revoked_trust :
    (l id n r : ℕ) (rows after : List TrustRow) (trust : TrustRow)
    → trust_count l n r rows ≤ 1
    → find_trust l id rows ≡ some trust
    → trust.remote_node_id ≡ n
    → trust.remote_laboratory_id ≡ r
    → revoke_trust_in_database l id rows ≡ some after
    → fetch_active_trust l n r after ≡ none
unfolding find_trust revoke_trust_in_database fetch_active_trust trust_count
revoked_trust l id n r [] after trust one found node laboratory h = cc
revoked_trust l id n r (row ∷ rows) after trust one found node laboratory h =
    elim (Bool-cases (row.local_laboratory_id == l && row.trust_id == id)) [
      | inl this ↦
          let same = some-injective _ _ (rw this at found) in
          let between : is_between l n r row ≡ true = rw (
            (and-eq-true (row.local_laboratory_id == l) _ this).0,
            (==_iff row.remote_node_id n).1 (ap (λ t. t.remote_node_id) same ∙ node),
            (==_iff row.remote_laboratory_id r).1
                (ap (λ t. t.remote_laboratory_id) same ∙ laboratory),
          ) in
          let alone : trust_count l n r rows ≡ 0 = ground (arith, between, one) in
          ap (fetch_active_trust l n r) (sym (some-injective _ _ (rw this at h)))
          ∙ rw (inactive (is_between l n r row)) (no_trust l n r rows alone)
      | inr other ↦
          let (rows', e, joined) = kept-eq-some row _ after (rw other at h) in
          let found' = rw other at found in
          let some_there = find_trust-trust_count l id n r rows trust found' node laboratory in
          let apart : is_between l n r row ≡ false = ground (arith, one, some_there) in
          let below : trust_count l n r rows ≤ 1 = ground (arith, one) in
          ap (fetch_active_trust l n r) (sym joined)
          ∙ rw apart (revoked_trust l id n r rows rows' trust below found' node laboratory e)
    ]
