-- ===== src/Common/Bits.antt =====
-- When the exclusive or, and the or, of two numbers is 0.
use Prim.Native.Nat.{
  ℕ, zero, suc, ◌/◌, ◌%◌, ◌≤◌, max, digits, differ, bit_xor, bit_or, bit_xor-bitwise,
  bit_or-bitwise,
}
use mathlib.Core.Path.{◌≡◌, refl, sym, ap, ◌∙◌}
use native.Mathlib.Omega.{arith}

differ-eq-zero : (x y : ℕ) → differ x y ≡ 0 → x ≡ y
differ-eq-zero zero y h = sym h
differ-eq-zero (suc x) zero h = h
differ-eq-zero (suc x) (suc y) h = ap suc (differ-eq-zero x y h)

differ_self : (x : ℕ) → differ x x ≡ 0
differ_self zero = refl
differ_self (suc x) = differ_self x

max-eq-zero : (x y : ℕ) → max x y ≡ 0 → (x ≡ 0) × (y ≡ 0)
max-eq-zero x y h = (omega arith, omega arith)

digits-differ : (n a b : ℕ) → a ≤ n → digits (λ b. b) differ n a b ≡ 0 → a ≡ b
digits-differ zero a b small h = omega arith
digits-differ (suc n) zero b small h = sym h
digits-differ (suc n) (suc a) b small h =
    let high : digits (λ b. b) differ n (suc a / 2) (b / 2) ≡ 0 = omega arith in
    let low = differ-eq-zero (suc a % 2) (b % 2) (omega arith) in
    let rest = digits-differ n (suc a / 2) (b / 2) (omega arith) high in omega arith

digits_same : (n a : ℕ) → a ≤ n → digits (λ b. b) differ n a a ≡ 0
digits_same zero a small = omega arith
digits_same (suc n) zero small = refl
digits_same (suc n) (suc a) small =
    rw (digits_same n (suc a / 2) (omega arith), differ_self (suc a % 2))

digits-max : (n a b : ℕ) → a ≤ n → digits (λ b. b) max n a b ≡ 0 → (a ≡ 0) × (b ≡ 0)
digits-max zero a b small h = (omega arith, h)
digits-max (suc n) zero b small h = (refl, h)
digits-max (suc n) (suc a) b small h =
    let high : digits (λ b. b) max n (suc a / 2) (b / 2) ≡ 0 = omega arith in
    let low = max-eq-zero (suc a % 2) (b % 2) (omega arith) in
    let rest = digits-max n (suc a / 2) (b / 2) (omega arith) high in
    let l0 = low.0 in let r0 = rest.0 in omega arith

pub bit_xor-eq-zero : (a b : ℕ) → bit_xor a b ≡ 0 → a ≡ b
bit_xor-eq-zero a b h = digits-differ a a b (omega arith) (sym (bit_xor-bitwise a b) ∙ h)

pub bit_xor_self : (a : ℕ) → bit_xor a a ≡ 0
bit_xor_self a = bit_xor-bitwise a a ∙ digits_same a a (omega arith)

pub bit_or-eq-zero : (a b : ℕ) → bit_or a b ≡ 0 → (a ≡ 0) × (b ≡ 0)
bit_or-eq-zero a b h = digits-max a a b (omega arith) (sym (bit_or-bitwise a b) ∙ h)
