-- ===== src/Federation/Reissuing.antt =====
-- The codes between two pairings: `insert_pairing_code` and `consume_pairing_code` of
-- backend/src/routes/federation/queries.rs in any order.
use text.Mathlib.Text.{◌==◌ as str_eq}
use lab_inventory.Common.{
  ℕ, ◌≤◌, ok, ok-injective, ◌≡◌, refl, sym, ap, ◌∙◌, arith, String, true, false, some, List, [],
  ◌∷◌, Bool-cases, inl, inr,
}
use mathlib.Core.Path.{subst}
use text.Mathlib.TextEquality.{eq_iff}
use lab_inventory.Federation.{PairingCodeRow}
use lab_inventory.Federation.Codes.{
  hash_count, is_used_up, is_used_up_kept, is_used_up-consume_pairing_code,
  consume_pairing_code-IsUsable, hash_count-consume_pairing_code, Among-hash_count,
}
use lab_inventory.Federation.Pairing.{consume_pairing_code, hash_taken, insert_pairing_code}

-- What happens to the codes: they are consumed, and new ones are issued.
pub data Reissued (before : List PairingCodeRow) : List PairingCodeRow → Type 0 where
  unchanged_codes : Reissued before before
  consumed :
      (now : ℕ) (code_hash : String) (rows after : List PairingCodeRow) (found : PairingCodeRow)
      → Reissued before rows
      → consume_pairing_code now code_hash rows ≡ some (found, after)
      → Reissued before after
  issued :
      (fresh laboratory_id : ℕ) (code_hash : String) (expires_at : ℕ)
      (rows after : List PairingCodeRow)
      → Reissued before rows
      → insert_pairing_code fresh laboratory_id code_hash expires_at rows ≡ ok after
      → Reissued before after

hash_taken-hash_count :
    (code_hash : String) (rows : List PairingCodeRow)
    → hash_taken code_hash rows ≡ false
    → hash_count code_hash rows ≡ 0
unfolding hash_taken hash_count
hash_taken-hash_count code_hash [] h = refl
hash_taken-hash_count code_hash (row ∷ rows) h =
    ground (arith, hash_taken-hash_count code_hash rows)

-- A code that is stored and used up stays so.
abbrev pub IsSpentCode : String → List PairingCodeRow → Type 0
IsSpentCode code_hash rows = (is_used_up code_hash rows ≡ true) × (1 ≤ hash_count code_hash rows)

insert_pairing_code-IsSpentCode :
    (code_hash other : String) (fresh laboratory_id expires_at : ℕ)
    (rows after : List PairingCodeRow)
    → insert_pairing_code fresh laboratory_id other expires_at rows ≡ ok after
    → IsSpentCode code_hash rows
    → IsSpentCode code_hash after
unfolding insert_pairing_code is_used_up hash_count
insert_pairing_code-IsSpentCode code_hash other fresh laboratory_id expires_at rows after h
      (used, there) =
    elim (Bool-cases (hash_taken other rows)) [
      | inl taken ↦ let bad = rw taken at h in cc
      | inr free ↦
          let e = ok-injective (rw free at h) in
          elim (Bool-cases (str_eq other code_hash)) [
            | inl same ↦
                let empty = hash_taken-hash_count other rows free in
                let named = (eq_iff other code_hash).0 same in
                let none_left = ap (λ c. hash_count c rows) (sym named) ∙ empty in
                absurd (omega (arith, none_left, there))
            | inr differs ↦ subst (IsSpentCode code_hash) e (rw differs used, rw differs there)
          ]
    ]

pub Reissued-IsSpentCode :
    (code_hash : String) (before after : List PairingCodeRow)
    → Reissued before after
    → IsSpentCode code_hash before
    → IsSpentCode code_hash after
Reissued-IsSpentCode code_hash before after unchanged_codes spent_before = spent_before
Reissued-IsSpentCode code_hash before after (consumed now other rows _ found steps h) spent_before =
    let (used, there) = Reissued-IsSpentCode code_hash before rows steps spent_before in
    let counted = hash_count-consume_pairing_code now code_hash other rows after found h in
    (is_used_up_kept now code_hash other rows after found h used, omega (arith, counted, there))
Reissued-IsSpentCode code_hash before after
      (issued fresh laboratory_id other expires_at rows _ steps h) spent_before =
    insert_pairing_code-IsSpentCode code_hash other fresh laboratory_id expires_at rows after h
      (Reissued-IsSpentCode code_hash before rows steps spent_before)

-- A code that was consumed is stored and used up afterwards.
pub consume_pairing_code-IsSpentCode :
    (now : ℕ) (code_hash : String) (rows after : List PairingCodeRow) (found : PairingCodeRow)
    → hash_count code_hash rows ≤ 1
    → consume_pairing_code now code_hash rows ≡ some (found, after)
    → IsSpentCode code_hash after
consume_pairing_code-IsSpentCode now code_hash rows after found one h =
    let (among, usable) = consume_pairing_code-IsUsable now code_hash rows after found h in
    let there = Among-hash_count found rows among in
    let named = ap (λ c. hash_count c rows) usable.hashed in
    let counted = hash_count-consume_pairing_code now code_hash code_hash rows after found h in
    (
      (is_used_up-consume_pairing_code now code_hash rows after found one h).1,
      omega (arith, there, named, counted),
    )
