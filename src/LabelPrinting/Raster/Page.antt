-- ===== src/LabelPrinting/Raster/Page.antt =====
-- backend/src/label_printing/raster.rs: `RasterError`, `Page`, `Page::new` and `row_bytes`.
-- `u16` and `usize` values are native numbers; no product here reaches 2 ^ 64.
use lab_inventory.Common.{
  ℕ, ◌+◌, ◌*◌, ◌/◌, ◌&&◌, List, leb, ◌==◌, length, Result, ok, guard, ◌>>◌, ◌≤◌, ◌≡◌, arith,
}
use lab_inventory.LabelPrinting.{min_raster_lines, max_raster_lines}
use lab_inventory.LabelPrinting.Media.{MediaSpec}

pub data RasterError : Type 0 where
  no_pages : RasterError
  width_mismatch : (width printable : ℕ) → RasterError
  length_out_of_range : (height : ℕ) → RasterError
  bitmap_size_mismatch : (width height expected actual : ℕ) → RasterError

-- A single label's bitmap.
pub record Page : Type 0 where
  pub width_dots : ℕ
  pub height_dots : ℕ
  pub bitmap : List ℕ

-- `usize::from(width_dots).div_ceil(8)`
abbrev pub row_bytes : ℕ → ℕ
row_bytes width_dots = (width_dots + 7) / 8

-- `Page::new`
unfoldable pub new : MediaSpec → ℕ → ℕ → List ℕ → Result RasterError Page
new media width_dots height_dots bitmap = do
  guard (width_dots == media.printable_width_dots)
      (width_mismatch width_dots media.printable_width_dots)
  guard (leb min_raster_lines height_dots && leb height_dots max_raster_lines)
      (length_out_of_range height_dots)
  let expected = row_bytes width_dots * height_dots
  guard (length bitmap == expected)
      (bitmap_size_mismatch width_dots height_dots expected (length bitmap))
  ok (record { width_dots = width_dots; height_dots = height_dots; bitmap = bitmap })

-- What `Page::new` establishes of a page.
pub record IsPage (media : MediaSpec) (page : Page) : Type 0 where
  pub width : page.width_dots ≡ media.printable_width_dots
  pub min_height : min_raster_lines ≤ page.height_dots
  pub max_height : page.height_dots ≤ max_raster_lines
  pub size : length page.bitmap ≡ row_bytes page.width_dots * page.height_dots

-- A page that is well formed is accepted as it is.
pub new_complete :
    (media : MediaSpec) (page : Page)
    → IsPage media page
    → new media page.width_dots page.height_dots page.bitmap ≡ ok page
unfolding new
new_complete media page p = ground arith
