-- ===== src/LabelPrinting/Raster/PackBits.antt =====
-- backend/src/label_printing/raster.rs: `pack_bits`, `run_length`, and `unpack_bits`, the decoder
-- of its tests. A loop's index into `data` is kept as the slice `data[index..]`; the loops take
-- fuel, and `none` is a panic or fuel that ran out.
pub mod RoundTrip
use mathlib.Core.Option
use lab_inventory.Common.{
  ℕ, zero, suc, ◌+◌, ◌-◌, ◌%◌, min, Bool, true, false, ◌&&◌, Option, none, some, List, [], ◌∷◌,
  ◌++◌, ltb, leb, ◌==◌, if◌then◌else◌, length, take, drop, replicate,
}

-- `iter().take_while(|&&b| b == value).count()`
count_while_eq : ℕ → List ℕ → ℕ
count_while_eq value [] = 0
count_while_eq value (b ∷ bs) = if b == value then suc (count_while_eq value bs) else 0

-- `run_length(data, index)` on `data[index..]`. It is never called past the end.
run_length : List ℕ → ℕ
unfolding count_while_eq
run_length [] = 0
run_length (value ∷ bs) = count_while_eq value (value ∷ bs)

-- The inner loop of `pack_bits`: from `index - start` and `data[index..]` to the final
-- `index - start`.
scan_literal : ℕ → List ℕ → ℕ
unfolding run_length
scan_literal n [] = n
scan_literal n (b ∷ bs) =
    let more = scan_literal (n + 1) bs in
    if ltb n 128 && ltb (run_length (b ∷ bs)) 2 then more else n

-- The outer loop of `pack_bits` on `data[index..]`: the bytes that it pushes from there on.
pack_loop : ℕ → List ℕ → Option (List ℕ)
unfolding run_length scan_literal
pack_loop fuel [] = some []
pack_loop zero (b ∷ bs) = none
pack_loop (suc fuel) (b ∷ bs) =
    let run = run_length (b ∷ bs) in
    elim (leb 2 run) [
      | true ↦
          let n = min run 128 in
          Option.map (λ out. ((257 - n) % 256) ∷ b ∷ out) (pack_loop fuel (drop n (b ∷ bs)))
      | false ↦
          let n = scan_literal 0 (b ∷ bs) in
          Option.map (λ out. ((n - 1) % 256) ∷ (take n (b ∷ bs) ++ out))
            (pack_loop fuel (drop n (b ∷ bs)))
    ]

-- Each round takes at least one byte, so their number is fuel enough.
unfoldable pub pack_bits : List ℕ → Option (List ℕ)
unfolding pack_loop
pack_bits bytes = pack_loop (length bytes) bytes

-- A run control byte: the byte behind it is repeated.
abbrev pub repeat_run : ℕ → (List ℕ → Option (List ℕ)) → List ℕ → Option (List ℕ)
repeat_run control continue [] = none
repeat_run control continue (b ∷ rest) =
    Option.map (λ out. replicate (257 - control) b ++ out) (continue rest)

abbrev pub literal_run : ℕ → (List ℕ → Option (List ℕ)) → List ℕ → Option (List ℕ)
literal_run count continue bs =
    if leb count (length bs)
    then Option.map (λ out. take count bs ++ out) (continue (drop count bs))
    else none

unpack_loop : ℕ → List ℕ → Option (List ℕ)
unpack_loop fuel [] = some []
unpack_loop zero (control ∷ bs) = none
unpack_loop (suc fuel) (control ∷ bs) =
    if leb control 127
    then literal_run (control + 1) (λ rest. unpack_loop fuel rest) bs
    else if control == 128
    then unpack_loop fuel bs
    else repeat_run control (λ rest. unpack_loop fuel rest) bs

unfoldable pub unpack_bits : List ℕ → Option (List ℕ)
unfolding unpack_loop
unpack_bits bytes = unpack_loop (length bytes) bytes
