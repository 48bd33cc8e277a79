-- ===== src/LabelPrinting/Raster/Blit.antt =====
-- backend/src/label_printing/raster.rs: `Page::row` and `blit_row`. `none` is the panic of an index
-- out of range.
pub mod Dots
use lab_inventory.Common.{
  ℕ, zero, suc, ◌+◌, ◌*◌, ◌/◌, ◌%◌, ◌^◌, bit_and, bit_or, Option, some, List, ◌==◌, if◌then◌else◌,
  get_elem?, set,
}
use lab_inventory.Common.Partial.{◌>>=◌, slice}
use lab_inventory.LabelPrinting.Raster.Page.{Page, row_bytes}

-- `Page::row`
unfoldable pub row : Page → ℕ → Option (List ℕ)
row self index = let stride = row_bytes self.width_dots in slice self.bitmap (stride * index) stride

-- `0x80 >> (x % 8)`
abbrev pub dot_mask : ℕ → ℕ
dot_mask x = 0x80 / 2 ^ (x % 8)

-- `line[target / 8] |= 0x80 >> (target % 8)`
set_dot : List ℕ → ℕ → Option (List ℕ)
set_dot line target = do
  byte ← get_elem? line (target / 8)
  some (set line (target / 8) (bit_or byte (dot_mask target)))

-- The body of the loop of `blit_row` at `x`.
blit_dot : List ℕ → List ℕ → ℕ → ℕ → Option (List ℕ)
unfolding set_dot
blit_dot line row left_offset x = do
  byte ← get_elem? row (x / 8)
  if bit_and byte (dot_mask x) == 0 then some line else set_dot line (left_offset + x)

-- The loop from `x` on, with the rounds that are left.
blit_from : ℕ → ℕ → List ℕ → List ℕ → ℕ → Option (List ℕ)
unfolding blit_dot
blit_from zero x line row left_offset = some line
blit_from (suc rounds) x line row left_offset = do
  line' ← blit_dot line row left_offset x
  blit_from rounds (x + 1) line' row left_offset

unfoldable pub blit_row : List ℕ → List ℕ → ℕ → ℕ → Option (List ℕ)
unfolding blit_from
blit_row line row width_dots left_offset = blit_from width_dots 0 line row left_offset
