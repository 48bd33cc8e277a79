-- ===== src/LabelPrinting/Tests.antt =====
-- The label printing theorems at concrete inputs, and runs of the definitions.
use lab_inventory.Common.{
  ℕ, ◌-◌, ◌≤◌, ◌<◌, ◌≡◌, ◌⊎◌, refl, true, ◌&&◌, Option, some, List, [], ◌∷◌, arith, ltb, leb, inl,
  All, length, replicate, length-replicate, ok,
}
use lab_inventory.LabelPrinting.{bytes_per_row}
use lab_inventory.LabelPrinting.Media.{
  MediaSpec, continuous, die_cut, die_cut_spec, lookup, feed_margin_for_print,
}
use lab_inventory.LabelPrinting.Media.Placement.{IsPlaced, lookup-IsPlaced}
use lab_inventory.LabelPrinting.Raster.PackBits.{pack_bits, unpack_bits}
use lab_inventory.LabelPrinting.Raster.PackBits.RoundTrip.{unpack_bits-pack_bits, pack_bits_bounds}
use lab_inventory.LabelPrinting.Raster.Page.{Page, new, IsPage, new_complete}
use lab_inventory.LabelPrinting.Raster.Blit.{blit_row}
use lab_inventory.LabelPrinting.Raster.Blit.Dots.{dot, blank, blit_row-dot}
use lab_inventory.LabelPrinting.Raster.Job.{encode_job}
use lab_inventory.LabelPrinting.Raster.Job.Reader.{PageView, read_job}
use lab_inventory.LabelPrinting.Raster.Job.Decode.{Views, read_job-encode_job}

abbrev small_label : MediaSpec
small_label = die_cut_spec 17 54 201 165 566 0

small_label-IsPlaced : IsPlaced small_label
small_label-IsPlaced = record {
  fits = omega arith;
  within_stock = omega arith;
  continuous_length = inl refl;
}

-- A page of 150 striped rows.
abbrev striped : Page
striped = record { width_dots = 165; height_dots = 150; bitmap = replicate 3150 0xA5 }

striped-IsPage : IsPage small_label striped
striped-IsPage = record {
  width = refl;
  min_height = omega arith;
  max_height = omega arith;
  size = length-replicate {A = ℕ} 3150 0xA5;
}

read_job-encode_job_example :
    (job : List ℕ) × (views : List PageView) × (encode_job small_label true (striped ∷ striped ∷ [])
      ≡ some (ok job))
    × (read_job 2 job ≡ some views)
    × Views small_label true 0 (striped ∷ striped ∷ []) views
unfolding feed_margin_for_print
read_job-encode_job_example =
    read_job-encode_job small_label true striped (striped ∷ []) small_label-IsPlaced (omega arith)
      (striped-IsPage, (striped-IsPage, tt))

blit_row-dot_example :
    (line : List ℕ) × (blit_row blank (0x81 ∷ 0x40 ∷ []) 10 12 ≡ some line)
    × (length line ≡ bytes_per_row)
    × All (λ b. b < 256) line
    × ((c : ℕ) → dot line c ≡ (leb 12 c && ltb c 22 && dot (0x81 ∷ 0x40 ∷ []) (c - 12)))
blit_row-dot_example = blit_row-dot (0x81 ∷ 0x40 ∷ []) 10 12 (omega arith) (omega arith)

unpack_bits-pack_bits_example :
    (packed : List ℕ) × (pack_bits (7 ∷ 7 ∷ 7 ∷ 1 ∷ 2 ∷ 2 ∷ []) ≡ some packed)
    × (unpack_bits packed ≡ some (7 ∷ 7 ∷ 7 ∷ 1 ∷ 2 ∷ 2 ∷ []))
unpack_bits-pack_bits_example = unpack_bits-pack_bits (7 ∷ 7 ∷ 7 ∷ 1 ∷ 2 ∷ 2 ∷ [])

packs : pack_bits (7 ∷ 7 ∷ 7 ∷ 1 ∷ 2 ∷ 2 ∷ []) ≡ some (254 ∷ 7 ∷ 0 ∷ 1 ∷ 255 ∷ 2 ∷ [])
unfolding pack_bits
packs = refl

-- 90 identical bytes collapse to one run.
packs_blank : pack_bits blank ≡ some (167 ∷ 0 ∷ [])
unfolding pack_bits
packs_blank = refl

pack_bits_bounds_example : (6 ≤ 12) × All (λ b. b < 256) (254 ∷ 7 ∷ 0 ∷ 1 ∷ 255 ∷ 2 ∷ [])
pack_bits_bounds_example =
    pack_bits_bounds (7 ∷ 7 ∷ 7 ∷ 1 ∷ 2 ∷ 2 ∷ []) (254 ∷ 7 ∷ 0 ∷ 1 ∷ 255 ∷ 2 ∷ []) packs
      (omega arith)

striped_accepted : new small_label 165 150 (replicate 3150 0xA5) ≡ ok striped
striped_accepted = new_complete small_label striped striped-IsPage

finds_62x29 : lookup die_cut 62 (some 29) ≡ some (die_cut_spec 62 29 732 696 271 12)
unfolding lookup
finds_62x29 = refl

lookup-IsPlaced_example :
    IsPlaced (die_cut_spec 62 29 732 696 271 12)
    × (die_cut ≡ die_cut)
    × (◌≡◌ {A = ℕ} 62 62)
    × ((die_cut ≡ continuous) ⊎ (◌≡◌ {A = Option ℕ} (some 29) (some 29)))
lookup-IsPlaced_example =
    lookup-IsPlaced die_cut 62 (some 29) (die_cut_spec 62 29 732 696 271 12) finds_62x29
