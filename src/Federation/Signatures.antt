-- ===== src/Federation/Signatures.antt =====
-- The comparison of signatures, a fold over the bytes that never leaves early, is equality.
use lab_inventory.Common.{
  ℕ, ◌≡◌, ◌↔◌, refl, sym, ap, ◌∙◌, String, true, some, List, [], ◌∷◌, arith, ==_iff, ==_refl,
  length, bit_or, bit_xor, bit_xor-eq-zero, bit_xor_self, bit_or-eq-zero, ok, ok_or, >>=-eq-ok,
  ok_or-eq-ok, passed, and-eq-true,
}
use lab_inventory.Federation.{Crypto, unauthorized}
use lab_inventory.Federation.Signing.{fold_difference, bytes_match, verify_signature}

fold_difference-eq-zero :
    (acc : ℕ) (left right : List ℕ)
    → length left ≡ length right
    → fold_difference acc left right ≡ 0
    → (acc ≡ 0) × (left ≡ right)
unfolding fold_difference
fold_difference-eq-zero acc [] [] same h = (h, refl)
fold_difference-eq-zero acc [] (r ∷ right) same h = absurd (omega arith)
fold_difference-eq-zero acc (l ∷ left) [] same h = absurd (omega arith)
fold_difference-eq-zero acc (l ∷ left) (r ∷ right) same h =
    let (now, rest) =
      fold_difference-eq-zero (bit_or acc (bit_xor l r)) left right (omega arith) h in
    let (before, equal) = bit_or-eq-zero acc (bit_xor l r) now in
    (before, ap (λ x. x ∷ left) (bit_xor-eq-zero l r equal) ∙ ap (λ xs. r ∷ xs) rest)

fold_difference_self : (bytes : List ℕ) → fold_difference 0 bytes bytes ≡ 0
unfolding fold_difference
fold_difference_self [] = refl
fold_difference_self (byte ∷ bytes) = rw (bit_xor_self byte) (fold_difference_self bytes)

bytes_match_iff : (left right : List ℕ) → (bytes_match left right ≡ true) ↔ (left ≡ right)
bytes_match_iff left right = (
  λ h.
      (let (same, zero_fold) = and-eq-true _ _ h in
        (fold_difference-eq-zero 0 left right ((==_iff (length left) (length right)).0 same)
          ((==_iff (fold_difference 0 left right) 0).0 zero_fold)).1),
  λ e. rw e (rw (==_refl (length right), fold_difference_self right)),
)

-- A signature is accepted exactly when it and the expected one decode to the same bytes.
pub verify_signature_iff :
    (crypto : Crypto) (provided expected : String)
    → (verify_signature crypto provided expected ≡ ok tt) ↔ (
        (bytes : List ℕ) × (crypto.decode provided ≡ some bytes)
        × (crypto.decode expected ≡ some bytes))
unfolding verify_signature
verify_signature_iff crypto provided expected = (
  λ h.
      (let (left, read, h1) = >>=-eq-ok (ok_or (crypto.decode provided) unauthorized) _ h in
        let (right, wanted, h2) = >>=-eq-ok (ok_or (crypto.decode expected) unauthorized) _ h1 in
        let same = (bytes_match_iff left right).0 (passed _ unauthorized h2) in
        (left, ok_or-eq-ok _ _ _ read, ok_or-eq-ok _ _ _ wanted ∙ ap some (sym same))),
  λ w. rw (w.1, w.2, (bytes_match_iff w.0 w.0).1 refl),
)
