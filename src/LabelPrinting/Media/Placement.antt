-- ===== src/LabelPrinting/Media/Placement.antt =====
-- A label size found by `lookup` is one of the table, and its printable area fits the print head.
use mathlib.Core.Path.{subst}
use mathlib.Core.Option.{some-injective}
use lab_inventory.Common.{
  ℕ, ◌+◌, ◌≤◌, ◌≡◌, ◌⊎◌, refl, true, Option, some, List, [], ◌∷◌, arith, ◌-◌, inl, inr, All,
  Bool-cases,
}
use lab_inventory.LabelPrinting.{pins}
use lab_inventory.LabelPrinting.Media.{
  MediaKind, MediaSpec, continuous, die_cut, as_str, parse, left_offset_dots, lookup, find_spec,
  spec_matches, supported_media,
}

-- What the code relies on of a label size: the printable area and its right margin fit the head,
-- the printable area is no wider than the stock, and only die-cut stock has a fixed length.
pub record IsPlaced (spec : MediaSpec) : Type 0 where
  pub fits : spec.printable_width_dots + spec.right_margin_dots ≤ pins
  pub within_stock : spec.printable_width_dots ≤ spec.total_width_dots
  pub continuous_length : (spec.kind ≡ die_cut) ⊎ (spec.length_mm ≡ 0)

supported-IsPlaced : All IsPlaced supported_media
supported-IsPlaced = grind arith

module _ (kind : MediaKind) (width_mm : ℕ) (length_mm : Option ℕ) where
  -- The first match satisfies what every entry does, and the test.
  find_spec-found :
      (P : MediaSpec → Type 0) (specs : List MediaSpec) (spec : MediaSpec)
      → All P specs
      → find_spec kind width_mm length_mm specs ≡ some spec
      → P spec × (spec_matches kind width_mm length_mm spec ≡ true)
  unfolding find_spec
  find_spec-found P [] spec h e = cc
  find_spec-found P (s ∷ rest) spec h e =
      elim (Bool-cases (spec_matches kind width_mm length_mm s)) [
        | inl t ↦
            let same : s ≡ spec = some-injective s spec (rw t at e) in
            subst (λ sp. P sp × (spec_matches kind width_mm length_mm sp ≡ true)) same (h.0, t)
        | inr t ↦ find_spec-found P rest spec h.1 (rw t at e)
      ]

  -- A size that `lookup` finds is placed inside the head and has the kind and the width asked for;
  -- a die-cut size also has the length asked for.
  pub lookup-IsPlaced :
      (spec : MediaSpec)
      → lookup kind width_mm length_mm ≡ some spec
      → IsPlaced spec
        × (spec.kind ≡ kind)
        × (spec.width_mm ≡ width_mm)
        × ((kind ≡ continuous) ⊎ (length_mm ≡ some spec.length_mm))
  unfolding lookup
  lookup-IsPlaced spec e =
      let found = find_spec-found IsPlaced supported_media spec supported-IsPlaced e in
      (found.0, ground (arith, found.1), ground (arith, found.1), ground (arith, found.1))

-- `lookup` finds every size of the table again from its kind, width and length.
pub lookup-supported_media :
    All (λ spec. lookup spec.kind spec.width_mm (some spec.length_mm) ≡ some spec) supported_media
unfolding lookup
lookup-supported_media = (refl, (refl, (refl, (refl, (refl, (refl, (refl, (refl, (refl, tt)))))))))

-- Of a placed size, a bitmap of the printable width starts at an offset that leaves exactly the
-- right margin of the head free.
pub left_offset_dots_right_aligned :
    (spec : MediaSpec)
    → IsPlaced spec
    → (offset : ℕ) × (left_offset_dots spec spec.printable_width_dots ≡ some offset)
      × (offset + spec.printable_width_dots + spec.right_margin_dots ≡ pins)
unfolding left_offset_dots
left_offset_dots_right_aligned spec p =
    (pins - spec.printable_width_dots - spec.right_margin_dots, ground arith, ground arith)

-- The text form of a media kind parses back to it.
pub parse-as_str : (kind : MediaKind) → parse (as_str kind) ≡ some kind
unfolding parse as_str
parse-as_str continuous = refl
parse-as_str die_cut = refl
