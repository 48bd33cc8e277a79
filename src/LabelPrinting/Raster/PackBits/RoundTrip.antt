-- ===== src/LabelPrinting/Raster/PackBits/RoundTrip.antt =====
-- What `pack_bits` writes: it always returns, `unpack_bits` gives the data back, and the size is
-- bounded, so that the length byte of a raster row holds it.
use mathlib.Core.Path.{subst}
use mathlib.Core.Option
use mathlib.Core.Option.{some-injective}
use lab_inventory.Common.{
  ℕ, zero, suc, ◌+◌, ◌-◌, ◌*◌, ◌%◌, ◌≤◌, ◌<◌, min, ◌≡◌, refl, sym, ap, ◌∙◌, true, false, Option,
  some, List, [], ◌∷◌, ◌++◌, arith, leb, Bool-cases, inl, inr, All, All-drop, All-take, All-append,
  length, take, drop, replicate, take-append-drop, take-append, drop-append, length-append,
  length-take, length-drop,
}
use lab_inventory.LabelPrinting.Raster.PackBits.{
  count_while_eq, run_length, scan_literal, pack_loop, pack_bits, unpack_loop, unpack_bits,
  literal_run,
}

count_while_eq-le-length : (v : ℕ) (bs : List ℕ) → count_while_eq v bs ≤ length bs
unfolding count_while_eq
count_while_eq-le-length v [] = omega arith
count_while_eq-le-length v (b ∷ bs) = ground (arith, count_while_eq-le-length v bs)

-- The first bytes of a run are copies of its value.
take-count_while_eq : (n v : ℕ) (bs : List ℕ) → n ≤ count_while_eq v bs → take n bs ≡ replicate n v
unfolding count_while_eq
take-count_while_eq zero v bs h = refl
take-count_while_eq (suc n) v [] h = absurd (omega arith)
take-count_while_eq (suc n) v (b ∷ bs) h = ground (arith, take-count_while_eq n v bs)

scan_literal_bounds :
    (n : ℕ) (bs : List ℕ)
    → n ≤ 128
    → (n ≤ scan_literal n bs) × (scan_literal n bs ≤ n + length bs) × (scan_literal n bs ≤ 128)
unfolding scan_literal
scan_literal_bounds n [] h = omega arith
scan_literal_bounds n (b ∷ bs) h = ground (arith, scan_literal_bounds (n + 1) bs)

-- One control byte, and what stands behind it, unpacks to its bytes.
unpack_run :
    (n v fuel : ℕ) (out bs : List ℕ)
    → 2 ≤ n
    → n ≤ 128
    → unpack_loop fuel out ≡ some bs
    → unpack_loop (suc fuel) (((257 - n) % 256) ∷ v ∷ out) ≡ some (replicate n v ++ bs)
unfolding unpack_loop
unpack_run n v fuel out bs lo hi e = ground (arith, restored)
  where
    restored : 257 - (257 - n) % 256 ≡ n
    restored = omega arith

literal_run-append :
    (count : ℕ) (continue : List ℕ → Option (List ℕ)) (xs out : List ℕ)
    → count ≡ length xs
    → literal_run count continue (xs ++ out) ≡ Option.map (λ bs. xs ++ bs) (continue out)
literal_run-append count continue xs out e = rw (e, fits, take-append xs out, drop-append xs out)
  where
    fits : leb (length xs) (length (xs ++ out)) ≡ true
    fits = ground (arith, length-append xs out)

unpack_literal :
    (control fuel : ℕ) (xs out bs : List ℕ)
    → control + 1 ≡ length xs
    → control ≤ 127
    → unpack_loop fuel out ≡ some bs
    → unpack_loop (suc fuel) (control ∷ (xs ++ out)) ≡ some (xs ++ bs)
unfolding unpack_loop
unpack_literal control fuel xs out bs count hi e =
    rw (small, literal_run-append (control + 1) (λ rest. unpack_loop fuel rest) xs out count, e)
  where
    small : leb control 127 ≡ true
    small = ground arith

-- The result of packing: with fuel for each of its bytes it unpacks to `bs`.
record IsPacked (bs : List ℕ) (result : Option (List ℕ)) : Type 0 where
  packed : List ℕ
  returns : result ≡ some packed
  unpacks : (fuel : ℕ) → length packed ≤ fuel → unpack_loop fuel packed ≡ some bs
  bounded : length packed ≤ 2 * length bs
  bytes : All (λ b. b < 256) bs → All (λ b. b < 256) packed

IsPacked-run :
    (b : ℕ) (bs : List ℕ) (n : ℕ) {result : Option (List ℕ)}
    → 2 ≤ n
    → n ≤ 128
    → n ≤ run_length (b ∷ bs)
    → IsPacked (drop n (b ∷ bs)) result
    → IsPacked (b ∷ bs) (Option.map (λ out. ((257 - n) % 256) ∷ b ∷ out) result)
unfolding run_length
IsPacked-run b bs n lo hi fits rest = record {
  packed = ((257 - n) % 256) ∷ b ∷ rest.packed;
  returns = rw rest.returns;
  unpacks = λ fuel p. unpacks fuel (omega arith);
  bounded =
      omega (arith, rest.bounded, length-drop n (b ∷ bs), count_while_eq-le-length b (b ∷ bs));
  bytes = λ k. (omega arith, (k.0, rest.bytes (All-drop (λ b. b < 256) n (b ∷ bs) k)));
}
  where
    unpacks :
        (fuel : ℕ)
        → length rest.packed + 2 ≤ fuel
        → unpack_loop fuel (((257 - n) % 256) ∷ b ∷ rest.packed) ≡ some (b ∷ bs)
    unpacks zero p = absurd (omega arith)
    unpacks (suc fuel) p =
        unpack_run n b fuel rest.packed (drop n (b ∷ bs)) lo hi (rest.unpacks fuel (omega arith))
        ∙ ap some (
            ap (λ front. front ++ drop n (b ∷ bs)) (sym (take-count_while_eq n b (b ∷ bs) fits))
            ∙ take-append-drop n (b ∷ bs))

IsPacked-literal :
    (bs : List ℕ) (n : ℕ) {result : Option (List ℕ)}
    → 1 ≤ n
    → n ≤ 128
    → n ≤ length bs
    → IsPacked (drop n bs) result
    → IsPacked bs (Option.map (λ out. ((n - 1) % 256) ∷ (take n bs ++ out)) result)
IsPacked-literal bs n lo hi fits rest = record {
  packed = ((n - 1) % 256) ∷ (take n bs ++ rest.packed);
  returns = rw rest.returns;
  unpacks = λ fuel p. unpacks fuel (omega arith);
  bounded = omega (
    arith,
    rest.bounded,
    length-append (take n bs) rest.packed,
    length-take n bs,
    length-drop n bs,
  );
  bytes = λ k. (
    omega arith,
    All-append (λ b. b < 256) (take n bs) rest.packed (All-take (λ b. b < 256) n bs k)
        (rest.bytes (All-drop (λ b. b < 256) n bs k)),
  );
}
  where
    unpacks :
        (fuel : ℕ)
        → length (take n bs ++ rest.packed) + 1 ≤ fuel
        → unpack_loop fuel (((n - 1) % 256) ∷ (take n bs ++ rest.packed)) ≡ some bs
    unpacks zero p = absurd (omega arith)
    unpacks (suc fuel) p =
        unpack_literal ((n - 1) % 256) fuel (take n bs) rest.packed (drop n bs)
          (omega (arith, length-take n bs)) (omega arith)
          (rest.unpacks fuel (omega (arith, length-append (take n bs) rest.packed)))
        ∙ ap some (take-append-drop n bs)

-- Where no run starts, the scan takes a byte.
scan_literal_pos :
    (b : ℕ) (bs : List ℕ)
    → leb 2 (run_length (b ∷ bs)) ≡ false
    → (1 ≤ scan_literal 0 (b ∷ bs))
      × (scan_literal 0 (b ∷ bs) ≤ 128)
      × (scan_literal 0 (b ∷ bs) ≤ length (b ∷ bs))
unfolding scan_literal
scan_literal_pos b bs h = ground (arith, scan_literal_bounds 1 bs)

length-drop-le :
    (n fuel : ℕ) (b : ℕ) (bs : List ℕ) → 1 ≤ n → length bs ≤ fuel → length (drop n (b ∷ bs)) ≤ fuel
length-drop-le n fuel b bs lo h = omega (arith, length-drop n (b ∷ bs))

pack_loop-IsPacked : (fuel : ℕ) (bs : List ℕ) → length bs ≤ fuel → IsPacked bs (pack_loop fuel bs)
unfolding pack_loop
pack_loop-IsPacked fuel [] h = record {
  packed = [];
  returns = refl;
  unpacks = λ f p. unfold unpack_loop in refl;
  bounded = omega arith;
  bytes = λ k. k;
}
pack_loop-IsPacked zero (b ∷ bs) h = absurd (omega arith)
pack_loop-IsPacked (suc fuel) (b ∷ bs) h = elim (Bool-cases (leb 2 (run_length (b ∷ bs)))) [
  | inl run ↦
      let n = min (run_length (b ∷ bs)) 128 in
      let lo : 2 ≤ n = ground arith in
      let rest =
        pack_loop-IsPacked fuel (drop n (b ∷ bs))
          (length-drop-le n fuel b bs (omega arith) (omega arith)) in
      rw (run, pack_loop) (IsPacked-run b bs n lo (omega arith) (omega arith) rest)
  | inr run ↦
      let n = scan_literal 0 (b ∷ bs) in
      let (lo, hi, fits) = scan_literal_pos b bs run in
      let rest =
        pack_loop-IsPacked fuel (drop n (b ∷ bs)) (length-drop-le n fuel b bs lo (omega arith)) in
      rw (run, pack_loop) (IsPacked-literal (b ∷ bs) n lo hi fits rest)
]

-- `pack_bits` returns on every slice, and what it returns unpacks to the slice.
pub unpack_bits-pack_bits :
    (bs : List ℕ)
    → (packed : List ℕ) × (pack_bits bs ≡ some packed) × (unpack_bits packed ≡ some bs)
unfolding pack_bits unpack_bits
unpack_bits-pack_bits bs =
    let p = pack_loop-IsPacked (length bs) bs (omega arith) in
    (p.packed, p.returns, p.unpacks (length p.packed) (omega arith))

-- What `pack_bits` returns is at most twice as long as the slice, and consists of bytes if the
-- slice does. So the packed form of a 90-byte line is at most 180 bytes long.
pub pack_bits_bounds :
    (bs packed : List ℕ)
    → pack_bits bs ≡ some packed
    → All (λ b. b < 256) bs
    → (length packed ≤ 2 * length bs) × All (λ b. b < 256) packed
unfolding pack_bits
pack_bits_bounds bs packed e h =
    let p = pack_loop-IsPacked (length bs) bs (omega arith) in
    let same : p.packed ≡ packed = some-injective p.packed packed (sym p.returns ∙ e) in
    subst (λ out. (length out ≤ 2 * length bs) × All (λ b. b < 256) out) same (p.bounded, p.bytes h)
