-- ===== src/Federation/Codes.antt =====
-- A pairing code works once: `consume_pairing_code` of backend/src/routes/federation/queries.rs in
-- `accept_pairing`.
use text.Mathlib.Text.{◌==◌ as str_eq}
use lab_inventory.Common.{
  ℕ, suc, ◌≤◌, ◌<◌, Among, ◌≡◌, refl, sym, ap, ◌∙◌, arith, String, Bool, true, false, not, ◌&&◌,
  Option, none, some, List, [], ◌∷◌, Bool-cases, inl, inr, if◌then◌else◌, ltb, and-eq-true,
}
use mathlib.Core.Option.{some-injective}
use text.Mathlib.TextEquality.{eq_iff}
use lab_inventory.Federation.{PairingCodeRow}
use lab_inventory.Federation.Pairing.{is_usable, is_unused, first_code, consume_pairing_code}

-- A code that can be consumed: it has the hash, has not been consumed and has not expired.
pub record IsUsable (now : ℕ) (code_hash : String) (row : PairingCodeRow) : Type 0 where
  pub hashed : row.code_hash ≡ code_hash
  pub unused : row.consumed_at ≡ none
  pub in_time : now < row.expires_at

-- The number of codes with a hash, at most 1 by the unique column.
unfoldable pub hash_count : String → List PairingCodeRow → ℕ
hash_count code_hash [] = 0
hash_count code_hash (row ∷ rows) =
    let rest = hash_count code_hash rows in
    if str_eq row.code_hash code_hash then suc rest else rest

-- No code with the hash can be consumed any more.
unfoldable pub is_used_up : String → List PairingCodeRow → Bool
is_used_up code_hash [] = true
is_used_up code_hash (row ∷ rows) =
    not (str_eq row.code_hash code_hash && is_unused row.consumed_at) && is_used_up code_hash rows

first_code-eq-some :
    (row found : PairingCodeRow) (after : List PairingCodeRow)
    (o : Option (PairingCodeRow × List PairingCodeRow))
    → first_code row o ≡ some (found, after)
    → (rows : List PairingCodeRow) × (o ≡ some (found, rows)) × (row ∷ rows ≡ after)
first_code-eq-some row found after none h = cc
first_code-eq-some row found after (some (found', rows)) h =
    let same = some-injective _ _ h in (rows, ap (λ p. some (p.0, rows)) same, ap (λ p. p.1) same)

is_used_up_none :
    (code_hash : String) (rows : List PairingCodeRow)
    → hash_count code_hash rows ≡ 0
    → is_used_up code_hash rows ≡ true
unfolding hash_count is_used_up
is_used_up_none code_hash [] h = refl
is_used_up_none code_hash (row ∷ rows) h = ground (arith, is_used_up_none code_hash rows)

unusable : (a b c : Bool) → not (a && b) ≡ true → (a && b && c) ≡ false
unusable true true c h = cc
unusable true false c h = refl
unusable false b c h = refl

-- A code that is used up is not consumed again.
pub consume_pairing_code-is_used_up :
    (now : ℕ) (code_hash : String) (rows : List PairingCodeRow)
    → is_used_up code_hash rows ≡ true
    → consume_pairing_code now code_hash rows ≡ none
unfolding consume_pairing_code is_used_up
consume_pairing_code-is_used_up now code_hash [] h = refl
consume_pairing_code-is_used_up now code_hash (row ∷ rows) h =
    let (here, rest) =
      and-eq-true (not (str_eq row.code_hash code_hash && is_unused row.consumed_at)) _ h in
    rw (
      unusable (str_eq row.code_hash code_hash) (is_unused row.consumed_at) (ltb now row.expires_at)
          here,
      consume_pairing_code-is_used_up now code_hash rows rest,
    )

-- What the consumption of a code has found, and that it uses the code up.
pub is_used_up-consume_pairing_code :
    (now : ℕ) (code_hash : String) (rows after : List PairingCodeRow) (found : PairingCodeRow)
    → hash_count code_hash rows ≤ 1
    → consume_pairing_code now code_hash rows ≡ some (found, after)
    → (is_usable now code_hash found ≡ true) × (is_used_up code_hash after ≡ true)
unfolding consume_pairing_code is_used_up hash_count
is_used_up-consume_pairing_code now code_hash [] after found one h = cc
is_used_up-consume_pairing_code now code_hash (row ∷ rows) after found one h =
    elim (Bool-cases (is_usable now code_hash row)) [
      | inl usable ↦
          let same = some-injective _ _ (rw usable at h) in
          let hashed =
            (and-eq-true (str_eq row.code_hash code_hash) (is_unused row.consumed_at)
              (and-eq-true (str_eq row.code_hash code_hash && is_unused row.consumed_at) _
                usable).0).0 in
          let alone : hash_count code_hash rows ≡ 0 = ground (arith, hashed, one) in
          (
            sym (ap (λ p. is_usable now code_hash p.0) same) ∙ usable,
            sym (ap (λ p. is_used_up code_hash p.1) same)
                ∙ rw hashed (is_used_up_none code_hash rows alone),
          )
      | inr unfit ↦
          let below : hash_count code_hash rows ≤ 1 = ground (arith, one) in
          let (rows', e, joined) = first_code-eq-some row found after _ (rw unfit at h) in
          let (fits, used) =
            is_used_up-consume_pairing_code now code_hash rows rows' found below e in
          elim (Bool-cases (str_eq row.code_hash code_hash)) [
            | inl hashed ↦
                let alone : hash_count code_hash rows ≡ 0 = ground (arith, hashed, one) in
                let gone =
                  consume_pairing_code-is_used_up now code_hash rows
                    (is_used_up_none code_hash rows alone) in
                cc
            | inr differs ↦ (fits, ap (is_used_up code_hash) (sym joined) ∙ rw differs used)
          ]
    ]

spent : (a : Bool) → not (a && false) ≡ true
spent true = refl
spent false = refl

-- The consumption of another code leaves a code used up.
pub is_used_up_kept :
    (now : ℕ) (code_hash other : String) (rows after : List PairingCodeRow) (found : PairingCodeRow)
    → consume_pairing_code now other rows ≡ some (found, after)
    → is_used_up code_hash rows ≡ true
    → is_used_up code_hash after ≡ true
unfolding consume_pairing_code is_used_up
is_used_up_kept now code_hash other [] after found h used = cc
is_used_up_kept now code_hash other (row ∷ rows) after found h used =
    elim (Bool-cases (is_usable now other row)) [
      | inl usable ↦
          let same = some-injective _ _ (rw usable at h) in
          let (here, rest) =
            and-eq-true (not (str_eq row.code_hash code_hash && is_unused row.consumed_at)) _
              used in
          sym (ap (λ p. is_used_up code_hash p.1) same)
          ∙ rw (spent (str_eq row.code_hash code_hash)) rest
      | inr unfit ↦
          let (rows', e, joined) = first_code-eq-some row found after _ (rw unfit at h) in
          let (here, rest) =
            and-eq-true (not (str_eq row.code_hash code_hash && is_unused row.consumed_at)) _
              used in
          ap (is_used_up code_hash) (sym joined)
          ∙ rw (here, is_used_up_kept now code_hash other rows rows' found e rest)
    ]

is_unused-eq-true : (time : Option ℕ) → is_unused time ≡ true → time ≡ none
is_unused-eq-true none h = refl
is_unused-eq-true (some t) h = cc

ltb-eq-true : (a b : ℕ) → ltb a b ≡ true → a < b
ltb-eq-true a b h = ground arith

is_usable-IsUsable :
    (now : ℕ) (code_hash : String) (row : PairingCodeRow)
    → is_usable now code_hash row ≡ true
    → IsUsable now code_hash row
is_usable-IsUsable now code_hash row h =
    let (front, time) = and-eq-true _ _ h in
    let (hashed, unused) = and-eq-true _ _ front in
    record {
      hashed = (eq_iff row.code_hash code_hash).0 hashed;
      unused = is_unused-eq-true row.consumed_at unused;
      in_time = ltb-eq-true now row.expires_at time;
    }

-- The code that is consumed was stored and could be consumed.
pub consume_pairing_code-IsUsable :
    (now : ℕ) (code_hash : String) (rows after : List PairingCodeRow) (found : PairingCodeRow)
    → consume_pairing_code now code_hash rows ≡ some (found, after)
    → Among found rows × IsUsable now code_hash found
unfolding consume_pairing_code
consume_pairing_code-IsUsable now code_hash [] after found h = cc
consume_pairing_code-IsUsable now code_hash (row ∷ rows) after found h =
    elim (Bool-cases (is_usable now code_hash row)) [
      | inl usable ↦
          let same = ap (λ p. p.0) (some-injective _ _ (rw usable at h)) in
          (
            inl (sym same),
            is_usable-IsUsable now code_hash found
                (ap (is_usable now code_hash) (sym same) ∙ usable),
          )
      | inr unfit ↦
          let (rows', e, joined) = first_code-eq-some row found after _ (rw unfit at h) in
          let (among, usable) = consume_pairing_code-IsUsable now code_hash rows rows' found e in
          (inr among, usable)
    ]

pub hash_count-consume_pairing_code :
    (now : ℕ) (code_hash other : String) (rows after : List PairingCodeRow) (found : PairingCodeRow)
    → consume_pairing_code now other rows ≡ some (found, after)
    → hash_count code_hash after ≡ hash_count code_hash rows
unfolding consume_pairing_code hash_count
hash_count-consume_pairing_code now code_hash other [] after found h = cc
hash_count-consume_pairing_code now code_hash other (row ∷ rows) after found h =
    elim (Bool-cases (is_usable now other row)) [
      | inl usable ↦
          let same = some-injective _ _ (rw usable at h) in
          sym (ap (λ p. hash_count code_hash p.1) same)
      | inr unfit ↦
          let (rows', e, joined) = first_code-eq-some row found after _ (rw unfit at h) in
          let rest = hash_count-consume_pairing_code now code_hash other rows rows' found e in
          sym (ap (hash_count code_hash) joined) ∙ ground (arith, rest)
    ]

pub Among-hash_count :
    (row : PairingCodeRow) (rows : List PairingCodeRow)
    → Among row rows
    → 1 ≤ hash_count row.code_hash rows
unfolding hash_count
Among-hash_count row [] h = absurd h
Among-hash_count row (first ∷ rows) (inl same) =
    let here = (eq_iff first.code_hash row.code_hash).1 (ap (λ r. r.code_hash) (sym same)) in
    ground (arith, here)
Among-hash_count row (first ∷ rows) (inr rest) = ground (arith, Among-hash_count row rows rest)
