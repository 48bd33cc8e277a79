-- ===== src/LabelPrinting/Media.antt =====
-- backend/src/label_printing/media.rs: the supported label sizes and where a bitmap is placed
-- inside the row of the print head. `u8` and `u16` fields are native numbers.
pub mod Placement
use text.Mathlib.Text.{◌==◌ as str_eq}
use lab_inventory.Common.{
  ℕ, ◌-◌, String, Bool, true, false, ◌&&◌, Option, none, some, List, [], ◌∷◌, ltb, ◌==◌,
  if◌then◌else◌,
}
use lab_inventory.LabelPrinting.{pins}

pub data MediaKind : Type 0 where
  continuous die_cut : MediaKind

-- `==` of the derived `PartialEq`.
abbrev pub kind_eq : MediaKind → MediaKind → Bool
kind_eq continuous continuous = true
kind_eq die_cut die_cut = true
kind_eq _ _ = false

unfoldable pub print_information_code : MediaKind → ℕ
print_information_code continuous = 0x0A
print_information_code die_cut = 0x0B

unfoldable pub as_str : MediaKind → String
as_str continuous = "continuous"
as_str die_cut = "die_cut"

unfoldable pub parse : String → Option MediaKind
parse value =
    if str_eq value "continuous"
    then some continuous
    else if str_eq value "die_cut"
    then some die_cut
    else none

pub record MediaSpec : Type 0 where
  pub kind : MediaKind
  pub width_mm : ℕ
  pub length_mm : ℕ
  pub total_width_dots : ℕ
  pub printable_width_dots : ℕ
  pub printable_length_dots : ℕ
  pub right_margin_dots : ℕ
  pub feed_margin_dots : ℕ

-- `u16::checked_sub`
abbrev pub checked_sub : ℕ → ℕ → Option ℕ
checked_sub a b = if ltb a b then none else some (a - b)

unfoldable pub left_offset_dots : MediaSpec → ℕ → Option ℕ
left_offset_dots self bitmap_width_dots = elim (checked_sub pins bitmap_width_dots) [
  | none ↦ none
  | some rest ↦ checked_sub rest self.right_margin_dots
]

abbrev feed_margin_of : MediaKind → ℕ → ℕ
feed_margin_of continuous feed_margin_dots = feed_margin_dots
feed_margin_of die_cut feed_margin_dots = 0

unfoldable pub feed_margin_for_print : MediaSpec → ℕ
feed_margin_for_print self = feed_margin_of self.kind self.feed_margin_dots

abbrev pub continuous_spec : ℕ → ℕ → ℕ → ℕ → MediaSpec
continuous_spec width_mm total_width_dots printable_width_dots right_margin_dots = record {
  kind = continuous;
  width_mm = width_mm;
  length_mm = 0;
  total_width_dots = total_width_dots;
  printable_width_dots = printable_width_dots;
  printable_length_dots = 0;
  right_margin_dots = right_margin_dots;
  feed_margin_dots = 35;
}

abbrev pub die_cut_spec : ℕ → ℕ → ℕ → ℕ → ℕ → ℕ → MediaSpec
die_cut_spec width_mm length_mm total_width printable_width printable_length right_margin = record {
  kind = die_cut;
  width_mm = width_mm;
  length_mm = length_mm;
  total_width_dots = total_width;
  printable_width_dots = printable_width;
  printable_length_dots = printable_length;
  right_margin_dots = right_margin;
  feed_margin_dots = 0;
}

abbrev pub supported_media : List MediaSpec
supported_media =
    continuous_spec 29 342 306 6
    ∷ continuous_spec 38 449 413 12
    ∷ continuous_spec 50 590 554 12
    ∷ continuous_spec 62 732 696 12
    ∷ die_cut_spec 17 54 201 165 566 0
    ∷ die_cut_spec 23 23 272 202 202 42
    ∷ die_cut_spec 29 90 342 306 991 6
    ∷ die_cut_spec 62 29 732 696 271 12
    ∷ die_cut_spec 62 100 732 696 1109 12
    ∷ []

-- `length_mm == Some(spec.length_mm)`
abbrev opt_is : Option ℕ → ℕ → Bool
opt_is none b = false
opt_is (some a) b = a == b

abbrev length_matches : MediaKind → Option ℕ → ℕ → Bool
length_matches continuous length_mm spec_length = true
length_matches die_cut length_mm spec_length = opt_is length_mm spec_length

abbrev pub spec_matches : MediaKind → ℕ → Option ℕ → MediaSpec → Bool
spec_matches kind width_mm length_mm spec =
    kind_eq spec.kind kind
    && spec.width_mm == width_mm
    && length_matches kind length_mm spec.length_mm

-- `iter().find(..)`
unfoldable pub find_spec : MediaKind → ℕ → Option ℕ → List MediaSpec → Option MediaSpec
find_spec kind width_mm length_mm [] = none
find_spec kind width_mm length_mm (spec ∷ rest) =
    if spec_matches kind width_mm length_mm spec
    then some spec
    else find_spec kind width_mm length_mm rest

unfoldable pub lookup : MediaKind → ℕ → Option ℕ → Option MediaSpec
unfolding find_spec
lookup kind width_mm length_mm = find_spec kind width_mm length_mm supported_media
