-- ===== src/LabelPrinting/Raster/Job/Rows.antt =====
-- The raster rows of a page: no read is out of range, and the reader gets back the head lines.
use mathlib.Core.Option.{some-injective}
use mathlib.Core.Option
use mathlib.Core.List.{append_assoc}
use native.Mathlib.Nat.{add-zero}
use lab_inventory.Common.{
  ℕ, zero, suc, ◌+◌, ◌-◌, ◌*◌, ◌%◌, ◌≤◌, ◌<◌, ◌≡◌, refl, ap, true, Bool, Option, some, List, [],
  ◌∷◌, ◌++◌, arith, ◌&&◌, leb, ltb, All, length, take, drop, get_or, take-append, drop-append,
  length-append, length-take, length-drop,
}
use lab_inventory.LabelPrinting.{pins, bytes_per_row}
use lab_inventory.LabelPrinting.Media.{MediaSpec, left_offset_dots}
use lab_inventory.LabelPrinting.Media.Placement.{IsPlaced}
use lab_inventory.LabelPrinting.Raster.PackBits.{unpack_bits}
use lab_inventory.LabelPrinting.Raster.PackBits.RoundTrip.{unpack_bits-pack_bits, pack_bits_bounds}
use lab_inventory.LabelPrinting.Raster.Page.{Page, IsPage, row_bytes}
use lab_inventory.LabelPrinting.Raster.Blit.{row}
use lab_inventory.LabelPrinting.Raster.Blit.Dots.{dot, blit_row-dot}
use lab_inventory.LabelPrinting.Raster.Job.{head_line, row_command, raster_rows}
use lab_inventory.LabelPrinting.Raster.Job.Reader.{read_row, read_rows}

-- Dot `c` of row `r` of a page's bitmap, read from the packed bytes.
abbrev pub page_dot : Page → ℕ → ℕ → Bool
page_dot page r c =
    dot (take (row_bytes page.width_dots) (drop (row_bytes page.width_dots * r) page.bitmap)) c

-- Where the media puts the bitmap.
abbrev pub offset_of : MediaSpec → Page → ℕ
offset_of media page = pins - page.width_dots - media.right_margin_dots

-- `line` is row `r` of the page, at the offset, on a head line that is white elsewhere.
pub record IsHeadLine (media : MediaSpec) (page : Page) (r : ℕ) (line : List ℕ) : Type 0 where
  pub size : length line ≡ bytes_per_row
  pub bytes : All (λ b. b < 256) line
  pub dots :
      (c : ℕ)
      → dot line c ≡ (
          leb (offset_of media page) c
          && ltb c (offset_of media page + page.width_dots)
          && page_dot page r (c - offset_of media page))

read_row-row_command :
    (packed line tail : List ℕ)
    → length packed < 256
    → unpack_bits packed ≡ some line
    → read_row (row_command packed ++ tail) ≡ some (line, tail)
unfolding read_row
read_row-row_command packed line tail small e =
    rw (fits, length_byte, take-append packed tail, drop-append packed tail, e)
  where
    length_byte : length packed % 256 ≡ length packed
    length_byte = omega arith

    fits : leb (length packed % 256) (length (packed ++ tail)) ≡ true
    fits = ground (arith, length-append packed tail)

read_rows-cons :
    (n : ℕ) (packed line encoded tail : List ℕ) (lines : List (List ℕ))
    → length packed < 256
    → unpack_bits packed ≡ some line
    → read_rows n (encoded ++ tail) ≡ some (lines, tail)
    → read_rows (suc n) ((row_command packed ++ encoded) ++ tail) ≡ some (line ∷ lines, tail)
unfolding read_rows
read_rows-cons n packed line encoded tail lines small e rest = rw (
  append_assoc (row_command packed) encoded tail,
  read_row-row_command packed line (encoded ++ tail) small e,
  rest,
)

module _ (media : MediaSpec) (page : Page) (placed : IsPlaced media)
    (valid : IsPage media page) where
  abbrev row_of : ℕ → List ℕ
  row_of r = take (row_bytes page.width_dots) (drop (row_bytes page.width_dots * r) page.bitmap)

  row_end :
      (r : ℕ)
      → r < page.height_dots
      → row_bytes page.width_dots * r + row_bytes page.width_dots ≤ length page.bitmap
  row_end r h = grind (arith, valid.size)

  row-eq : (r : ℕ) → r < page.height_dots → row page r ≡ some (row_of r)
  unfolding row
  row-eq r h = ground (arith, row_end r h)

  length-row_of : (r : ℕ) → r < page.height_dots → length (row_of r) ≡ row_bytes page.width_dots
  length-row_of r h = omega (
    arith,
    row_end r h,
    length-take (row_bytes page.width_dots) (drop (row_bytes page.width_dots * r) page.bitmap),
    length-drop (row_bytes page.width_dots * r) page.bitmap,
  )

  offset-eq : Option.get_or (left_offset_dots media page.width_dots) 0 ≡ offset_of media page
  unfolding left_offset_dots
  offset-eq = ground (arith, placed.fits, valid.width)

  -- No read or write is out of range, and the line is the row at the offset of the media.
  pub head_line-IsHeadLine :
      (r : ℕ)
      → r < page.height_dots
      → (line : List ℕ) × (head_line media page r ≡ some line) × IsHeadLine media page r line
  unfolding head_line
  head_line-IsHeadLine r h =
      let (line, returns, size, is_bytes, dots) =
        blit_row-dot (row_of r) page.width_dots (offset_of media page)
          (omega (arith, length-row_of r h)) (omega (arith, placed.fits, valid.width)) in
      (
        line,
        rw (offset-eq, row-eq r h) returns,
        record { size = size; bytes = is_bytes; dots = dots },
      )

  -- What the rows from `index` on encode to, and what the reader gets back from them.
  pub record IsRows (left index : ℕ) (result : Option (List ℕ)) : Type 0 where
    pub encoded : List ℕ
    pub lines : List (List ℕ)
    pub returns : result ≡ some encoded
    pub reads : (tail : List ℕ) → read_rows left (encoded ++ tail) ≡ some (lines, tail)
    pub count : length lines ≡ left
    pub shows : (j : ℕ) → j < left → IsHeadLine media page (index + j) (get_or lines j [])

  shows_cons :
      (line : List ℕ) (index : ℕ) (lines : List (List ℕ)) {left : ℕ}
      → IsHeadLine media page index line
      → ((j : ℕ) → j < left → IsHeadLine media page (index + 1 + j) (get_or lines j []))
      → (j : ℕ) → j < suc left
      → IsHeadLine media page (index + j) (get_or (line ∷ lines) j [])
  shows_cons line index lines first rest zero p = rw add-zero first
  shows_cons line index lines first rest (suc j) p =
      let next : index + suc j ≡ index + 1 + j = omega arith in rw next (rest j (omega arith))

  pub raster_rows-IsRows :
      (left index : ℕ)
      → index + left ≤ page.height_dots
      → IsRows left index (raster_rows media page left index)
  unfolding raster_rows
  raster_rows-IsRows zero index h = record {
    encoded = [];
    lines = [];
    returns = refl;
    reads = λ tail. unfold read_rows in refl;
    count = refl;
    shows = λ j p. absurd (omega arith);
  }
  raster_rows-IsRows (suc left) index h =
      let (line, line_is, shown) = head_line-IsHeadLine index (omega arith) in
      let (packed, packed_is, unpacked) = unpack_bits-pack_bits line in
      let (small, _) = pack_bits_bounds line packed packed_is shown.bytes in
      let rest = raster_rows-IsRows left (index + 1) (omega arith) in
      record {
        encoded = row_command packed ++ rest.encoded;
        lines = line ∷ rest.lines;
        returns = rw (line_is, packed_is, rest.returns);
        reads = λ tail.
            read_rows-cons left packed line rest.encoded tail rest.lines (omega (arith, shown.size))
              unpacked (rest.reads tail);
        count = ap suc rest.count;
        shows = shows_cons line index rest.lines shown rest.shows;
      }
