-- ===== src/LabelPrinting/Raster/Job.antt =====
-- backend/src/label_printing/raster.rs: `encode_job` and the `push_*` functions. Each `push_*`
-- appends to `out`; here it is the list of bytes that it appends. `none` is a panic.
pub mod Reader
pub mod Rows
pub mod Decode
use lab_inventory.Common.{
  ℕ, zero, suc, ◌+◌, ◌-◌, ◌*◌, ◌/◌, ◌%◌, Bool, Option, some, List, [], ◌∷◌, ◌++◌, ◌==◌,
  if◌then◌else◌, length, replicate, Result, ok, err,
}
use mathlib.Core.Option
use lab_inventory.Common.Partial.{◌>>=◌}
use lab_inventory.LabelPrinting.{bytes_per_row, invalidate_bytes}
use lab_inventory.LabelPrinting.Media.{
  MediaSpec, print_information_code, left_offset_dots, feed_margin_for_print,
}
use lab_inventory.LabelPrinting.Raster.PackBits.{pack_bits}
use lab_inventory.LabelPrinting.Raster.Page.{Page, RasterError, no_pages}
use lab_inventory.LabelPrinting.Raster.Blit.{row, blit_row}

abbrev pub esc : ℕ
esc = 0x1B

abbrev pub status_request : List ℕ
status_request = esc ∷ b'i' ∷ b'S' ∷ []

-- `u32::to_le_bytes` and `u16::to_le_bytes`
abbrev pub u32_le_bytes : ℕ → List ℕ
u32_le_bytes n = (n % 256) ∷ (n / 256 % 256) ∷ (n / 65536 % 256) ∷ (n / 16777216 % 256) ∷ []

abbrev pub u16_le_bytes : ℕ → List ℕ
u16_le_bytes n = (n % 256) ∷ (n / 256 % 256) ∷ []

abbrev pub preamble : List ℕ
preamble =
    replicate invalidate_bytes 0
    ++ (esc ∷ b'@' ∷ [])
    ++ (esc ∷ b'i' ∷ b'a' ∷ 0x01 ∷ [])
    ++ status_request

-- 0x80 | 0x02 | 0x04 | 0x08 | 0x40
abbrev pub valid_flags : ℕ
valid_flags = 0xCE

abbrev pub print_information : MediaSpec → Page → ℕ → List ℕ
print_information media page page_index =
    esc
    ∷ b'i'
    ∷ b'z'
    ∷ valid_flags
    ∷ print_information_code media.kind
    ∷ media.width_mm
    ∷ media.length_mm
    ∷ (u32_le_bytes page.height_dots ++ (if page_index == 0 then 0 else 1) ∷ 0x00 ∷ [])

-- `u8::from(auto_cut)`
abbrev pub u8_from : Bool → ℕ
u8_from auto_cut = if auto_cut then 1 else 0

abbrev pub mode_commands : Bool → List ℕ
mode_commands auto_cut =
    esc
    ∷ b'i'
    ∷ b'M'
    ∷ (u8_from auto_cut * 64)
    ∷ esc
    ∷ b'i'
    ∷ b'A'
    ∷ 1
    ∷ esc
    ∷ b'i'
    ∷ b'K'
    ∷ (u8_from auto_cut * 8)
    ∷ []

abbrev pub margins : MediaSpec → List ℕ
margins media = esc ∷ b'i' ∷ b'd' ∷ u16_le_bytes (feed_margin_for_print media)

abbrev pub compression : List ℕ
compression = b'M' ∷ 0x02 ∷ []

-- The print-head line of one row: blank, with the row blitted at the media's offset.
unfoldable pub head_line : MediaSpec → Page → ℕ → Option (List ℕ)
head_line media page index = do
  let left_offset = Option.get_or (left_offset_dots media page.width_dots) 0
  bytes ← row page index
  blit_row (replicate bytes_per_row 0) bytes page.width_dots left_offset

-- `g`, 0, the length as a `u8`, and the compressed line.
abbrev pub row_command : List ℕ → List ℕ
row_command compressed = b'g' ∷ 0x00 ∷ (length compressed % 256) ∷ compressed

-- The loop of `push_raster_rows` from row `index` on, with the rows that are left.
pub raster_rows : MediaSpec → Page → ℕ → ℕ → Option (List ℕ)
raster_rows media page zero index = some []
raster_rows media page (suc left) index = do
  line ← head_line media page index
  compressed ← pack_bits line
  rest ← raster_rows media page left (index + 1)
  some (row_command compressed ++ rest)

-- The loop of `encode_job` over the pages from `index` on.
pub encode_pages : MediaSpec → Bool → ℕ → ℕ → List Page → Option (List ℕ)
unfolding raster_rows
encode_pages media auto_cut last_index index [] = some []
encode_pages media auto_cut last_index index (page ∷ pages) = do
  rows ← raster_rows media page page.height_dots 0
  rest ← encode_pages media auto_cut last_index (index + 1) pages
  some (
      print_information media page index
      ++ (mode_commands auto_cut
          ++ (margins media
              ++ (compression ++ (rows ++ (if index == last_index then 0x1A else 0x0C) ∷ rest)))))

unfoldable pub encode_job : MediaSpec → Bool → List Page → Option (Result RasterError (List ℕ))
unfolding encode_pages
encode_job media auto_cut [] = some (err no_pages)
encode_job media auto_cut (page ∷ pages) = do
  body ← encode_pages media auto_cut (length pages) 0 (page ∷ pages)
  some (ok (preamble ++ body))
