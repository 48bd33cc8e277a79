-- ===== src/LabelPrinting/Status/Report.antt =====
-- What a parsed status block says of the bytes of the block.
use mathlib.Core.Option
use lab_inventory.Common.{
  ℕ, ◌≡◌, Bool, true, false, ◌&&◌, ◌||◌, List, ltb, ◌==◌, arith, length, get_or, ok, err,
  Bool-cases, inl, inr,
}
use lab_inventory.LabelPrinting.Media.{
  MediaKind, MediaSpec, continuous, die_cut, as_str, print_information_code,
}
use lab_inventory.LabelPrinting.Status.{
  PrinterStatus, too_short, parse, report, matches, kind_of_code, opt_str_is, status_block_len,
}

abbrev is_continuous : MediaKind → Bool
is_continuous continuous = true
is_continuous die_cut = false

-- The reported kind is the wanted one exactly when the type byte is the code that a job for the
-- wanted size carries in `ESC i z`.
kind_matches :
    (code : ℕ) (kind : MediaKind)
    → opt_str_is (Option.map as_str (kind_of_code code)) (as_str kind)
      ≡ (code == print_information_code kind)
unfolding as_str print_information_code
kind_matches code continuous = ground arith
kind_matches code die_cut = ground arith

matches-report :
    (block : List ℕ) (spec : MediaSpec)
    → matches (report block) spec ≡ (
        get_or block 11 0 == print_information_code spec.kind
        && get_or block 10 0 == spec.width_mm
        && (is_continuous spec.kind || get_or block 17 0 == spec.length_mm))
unfolding matches report
matches-report block spec = rw (kind_matches (get_or block 11 0) spec.kind) (ground arith)

pub report-eq :
    (block : List ℕ) (status : PrinterStatus) → parse block ≡ ok status → report block ≡ status
unfolding parse
report-eq block status h = elim (Bool-cases (ltb (length block) status_block_len)) [
  | inl short ↦ let e : err (too_short (length block)) ≡ ok status = rw short at h in cc
  | inr long ↦ let e : ok (report block) ≡ ok status = rw long at h in cc
]

-- Of a block that `parse` accepts, the loaded media matches a size of label exactly when its type
-- byte is the code that a job for that size carries, its width byte is the width and, for die-cut
-- stock, its length byte is the length.
pub parse-matches :
    (block : List ℕ) (spec : MediaSpec) (status : PrinterStatus)
    → parse block ≡ ok status
    → matches status spec ≡ (
        get_or block 11 0 == print_information_code spec.kind
        && get_or block 10 0 == spec.width_mm
        && (is_continuous spec.kind || get_or block 17 0 == spec.length_mm))
unfolding matches
parse-matches block spec status h = rw (← report-eq block status h) (matches-report block spec)
