-- ===== src/LabelPrinting/Status/Tests.antt =====
-- The status theorems at a concrete block, and runs of the definitions.
use lab_inventory.Common.{
  ℕ, ◌≡◌, refl, false, ◌&&◌, ◌||◌, List, [], ◌∷◌, ◌++◌, ◌==◌, replicate, some, ok, err,
}
use lab_inventory.LabelPrinting.Media.{die_cut_spec, print_information_code, die_cut}
use lab_inventory.LabelPrinting.Status.{
  PrinterStatus, too_short, parse, matches, cover_open, end_of_media,
}
use lab_inventory.LabelPrinting.Status.Report.{parse-matches}
use lab_inventory.LabelPrinting.Status.Faults.{holds, bit_set, parse-faults}

-- 62x29 die-cut labels, with "end of media" and "cover open".
abbrev block : List ℕ
block = replicate 8 0 ++ 0x02 ∷ 0x10 ∷ 62 ∷ 0x0B ∷ 0 ∷ 0 ∷ 0 ∷ 0 ∷ 0 ∷ 29 ∷ replicate 14 0

abbrev block_status : PrinterStatus
block_status = record {
  media_kind = some "die_cut";
  media_width_mm = 62;
  media_length_mm = 29;
  faults = end_of_media ∷ cover_open ∷ [];
}

parses : parse block ≡ ok block_status
unfolding parse
parses = refl

too_short_block : parse (replicate 31 0) ≡ err (too_short 31)
unfolding parse
too_short_block = refl

parse-matches_example :
    matches block_status (die_cut_spec 62 29 732 696 271 12)
    ≡ (11 == print_information_code die_cut && 62 == 62 && (false || 29 == 29))
parse-matches_example = parse-matches block (die_cut_spec 62 29 732 696 271 12) block_status parses

parse-faults_example : holds cover_open block_status.faults ≡ bit_set 0x10 4
parse-faults_example = parse-faults block block_status cover_open parses
