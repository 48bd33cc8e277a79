-- ===== src/LabelPrinting/Raster/Blit/Dots.antt =====
-- Where the dots of a page row land in the line of the print head.
use Prim.Native.Nat.{bit_and-bitwise}
use native.Mathlib.Decide.{ℕ_discrete}
use lab_inventory.Common.{
  ℕ, zero, suc, ◌+◌, ◌-◌, ◌*◌, ◌/◌, ◌%◌, ◌≤◌, ◌<◌, ◌≡◌, refl, ◌∙◌, bit_and, bit_or, Bool, true,
  false, not, ◌&&◌, ◌||◌, Option, some, List, ◌==◌, ltb, leb, arith, All, All-get_or, All-set,
  length, get_or, set, length-set, get_or-set_self, get_or-set_ne, get_elem?-eq-get_or, all_below,
  all_below_sound, Bool-cases, inl, inr, replicate,
}
use lab_inventory.LabelPrinting.{pins, bytes_per_row}
use lab_inventory.LabelPrinting.Raster.Blit.{dot_mask, set_dot, blit_dot, blit_from, blit_row}

-- Dot `c` of a packed row, most significant bit first: set is black.
abbrev pub dot : List ℕ → ℕ → Bool
dot bytes c = not (bit_and (get_or bytes (c / 8) 0) (dot_mask c) == 0)

abbrev bool_eq : Bool → Bool → Bool
bool_eq true b = b
bool_eq false b = not b

bool_eq→eq : (a b : Bool) → bool_eq a b ≡ true → a ≡ b
bool_eq→eq a b h = ground arith

-- Setting bit `k` of byte `v`, read at bit `j`.
abbrev set_bit_test : ℕ → ℕ → ℕ → Bool
set_bit_test v k j =
    bool_eq (bit_and (bit_or v (dot_mask k)) (dot_mask j) == 0)
      (not (k == j) && bit_and v (dot_mask j) == 0)
    && ltb (bit_or v (dot_mask k)) 256

set_bit_table : all_below 256 (λ v. all_below 8 (λ k. all_below 8 (set_bit_test v k))) ≡ true
unfolding all_below
set_bit_table = refl

both_hold : (b : Bool) (n : ℕ) → (b && ltb n 256) ≡ true → (b ≡ true) × (n < 256)
both_hold b n h = ground arith

mod-mod : (x : ℕ) → x % 8 % 8 ≡ x % 8
mod-mod x = omega arith

-- The same at any two dots of a row, which stand in the same byte or not.
set_bit :
    (v x y : ℕ)
    → v < 256
    → ((bit_and (bit_or v (dot_mask x)) (dot_mask y) == 0)
        ≡ (not (x % 8 == y % 8) && bit_and v (dot_mask y) == 0))
      × (bit_or v (dot_mask x) < 256)
set_bit v x y h =
    let in_row = all_below_sound 256 _ v set_bit_table h in
    let in_mask = all_below_sound 8 _ (x % 8) in_row (omega arith) in
    let test = all_below_sound 8 _ (y % 8) in_mask (omega arith) in
    let (same, small) = both_hold _ _ (rw (mod-mod x, mod-mod y) at test) in
    (bool_eq→eq _ _ same, small)

same_byte :
    (t c : ℕ) (b : Bool) → t / 8 ≡ c / 8 → not (not (t % 8 == c % 8) && b) ≡ (t == c || not b)
same_byte t c b e = ground arith

dot-set :
    (line : List ℕ) (t c : ℕ)
    → t < 8 * length line
    → get_or line (t / 8) 0 < 256
    → dot (set line (t / 8) (bit_or (get_or line (t / 8) 0) (dot_mask t))) c
      ≡ (t == c || dot line c)
dot-set line t c h is_byte = elim (ℕ_discrete (t / 8) (c / 8)) [
  | yes same ↦
      let here = get_or-set_self line (t / 8) (bit_or (get_or line (t / 8) 0) (dot_mask t)) 0 in
      rw (← same, here (omega arith), (set_bit (get_or line (t / 8) 0) t c is_byte).0)
        (same_byte t c _ same)
  | no other ↦
      rw (get_or-set_ne line (t / 8) (c / 8) (bit_or (get_or line (t / 8) 0) (dot_mask t)) 0 other)
        (ground arith)
]

-- What painting the dots `black` into `line` gives: it returns, keeps the length, stays bytes, and
-- every other dot is as before.
pub record IsPainted (line : List ℕ) (black : ℕ → Bool) (result : Option (List ℕ)) : Type 0 where
  pub out : List ℕ
  pub returns : result ≡ some out
  pub same_length : length out ≡ length line
  pub bytes : All (λ b. b < 256) out
  pub dots : (c : ℕ) → dot out c ≡ (black c || dot line c)

set_dot-IsPainted :
    (line : List ℕ) (t : ℕ)
    → t < 8 * length line
    → All (λ b. b < 256) line
    → IsPainted line (λ c. t == c) (set_dot line t)
unfolding set_dot
set_dot-IsPainted line t h bytes =
    let byte = get_or line (t / 8) 0 in
    let is_byte : byte < 256 = All-get_or (λ b. b < 256) line (t / 8) 0 bytes (omega arith) in
    record {
      out = set line (t / 8) (bit_or byte (dot_mask t));
      returns = rw (get_elem?-eq-get_or line (t / 8) 0 (omega arith));
      same_length = length-set line (t / 8) _;
      bytes = All-set (λ b. b < 256) line (t / 8) _ bytes (set_bit byte t t is_byte).1;
      dots = λ c. dot-set line t c h is_byte;
    }

module _ (row : List ℕ) (off : ℕ) where
  -- The dots that the rounds from `x` on paint.
  abbrev pub painted : ℕ → ℕ → ℕ → Bool
  painted rounds x c = leb (off + x) c && ltb c (off + x + rounds) && dot row (c - off)

  painted-one : (x c : ℕ) → painted 1 x c ≡ (off + x == c && dot row x)
  painted-one x c = elim (ℕ_discrete (c - off) x) [
    | yes same ↦ rw same (ground arith)
    | no other ↦ ground arith
  ]

  blit_dot-IsPainted :
      (line : List ℕ) (x : ℕ)
      → x < 8 * length row
      → off + x < 8 * length line
      → All (λ b. b < 256) line
      → IsPainted line (painted 1 x) (blit_dot line row off x)
  unfolding blit_dot set_dot
  blit_dot-IsPainted line x in_row in_line bytes = elim (Bool-cases (dot row x)) [
    | inl black ↦
        let set = set_dot-IsPainted line (off + x) in_line bytes in
        record {
          out = set.out;
          returns = ground (arith, get_elem?-eq-get_or row (x / 8) 0, set.returns);
          same_length = set.same_length;
          bytes = set.bytes;
          dots = λ c. ground (arith, set.dots c, painted-one x c);
        }
    | inr white ↦ record {
      out = line;
      returns = ground (arith, get_elem?-eq-get_or row (x / 8) 0);
      same_length = refl;
      bytes = bytes;
      dots = λ c. ground (arith, painted-one x c);
    }
  ]

  blit_from-IsPainted :
      (rounds x : ℕ) (line : List ℕ)
      → x + rounds ≤ 8 * length row
      → off + x + rounds ≤ 8 * length line
      → All (λ b. b < 256) line
      → IsPainted line (painted rounds x) (blit_from rounds x line row off)
  unfolding blit_from
  blit_from-IsPainted zero x line in_row in_line bytes = record {
    out = line;
    returns = refl;
    same_length = refl;
    bytes = bytes;
    dots = λ c. ground arith;
  }
  blit_from-IsPainted (suc rounds) x line in_row in_line bytes =
      let first = blit_dot-IsPainted line x (omega arith) (omega arith) bytes in
      let rest =
        blit_from-IsPainted rounds (x + 1) first.out (omega arith)
          (omega (arith, first.same_length)) first.bytes in
      record {
        out = rest.out;
        returns = rw first.returns rest.returns;
        same_length = rest.same_length ∙ first.same_length;
        bytes = rest.bytes;
        dots = λ c. ground (arith, first.dots c, rest.dots c);
      }

-- A head line with no black dot.
abbrev pub blank : List ℕ
blank = replicate bytes_per_row 0

get_or-replicate : (n i : ℕ) → ◌≡◌ {A = ℕ} (get_or (replicate n 0) i 0) 0
get_or-replicate zero i = refl
get_or-replicate (suc n) zero = refl
get_or-replicate (suc n) (suc i) = get_or-replicate n i

dot-blank : (c : ℕ) → dot blank c ≡ false
dot-blank c =
    rw (get_or-replicate bytes_per_row (c / 8)) (ground (arith, bit_and-bitwise 0 (dot_mask c)))

-- Blitting a row of `width` dots onto a blank line at an offset that leaves it inside the print
-- head reads and writes nothing out of range. The line keeps its 90 bytes; its dots from the
-- offset on are the dots of the row, in order, and every other dot is white.
pub blit_row-dot :
    (row : List ℕ) (width off : ℕ)
    → width ≤ 8 * length row
    → off + width ≤ pins
    → (line : List ℕ) × (blit_row blank row width off ≡ some line)
      × (length line ≡ bytes_per_row)
      × All (λ b. b < 256) line
      × ((c : ℕ) → dot line c ≡ (leb off c && ltb c (off + width) && dot row (c - off)))
unfolding blit_row
blit_row-dot row width off in_row in_head =
    let p = blit_from-IsPainted row off width 0 blank (omega arith) (omega arith) (omega arith) in
    (p.out, p.returns, p.same_length, p.bytes, λ c. ground (arith, p.dots c, dot-blank c))
