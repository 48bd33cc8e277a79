-- ===== src/LabelPrinting/Raster/Job/Decode.antt =====
-- `encode_job` against the reader of print jobs.
use mathlib.Core.Path.{subst}
use native.Mathlib.Nat.{zero-add}
use lab_inventory.Common.{
  ℕ, zero, suc, ◌+◌, ◌*◌, ◌/◌, ◌%◌, ◌≤◌, ◌<◌, ◌≡◌, refl, Bool, Option, some, List, [], ◌∷◌, ◌++◌,
  arith, ◌==◌, if◌then◌else◌, All, length, get_or, ok,
}
use lab_inventory.LabelPrinting.Media.{MediaSpec, print_information_code, feed_margin_for_print}
use lab_inventory.LabelPrinting.Media.Placement.{IsPlaced}
use lab_inventory.LabelPrinting.Raster.Page.{Page, IsPage}
use lab_inventory.LabelPrinting.Raster.Job.{
  print_information, mode_commands, margins, compression, u8_from, preamble, raster_rows,
  encode_pages, encode_job,
}
use lab_inventory.LabelPrinting.Raster.Job.Reader.{
  PageView, read_page, read_pages, read_job, read_rows,
}
use lab_inventory.LabelPrinting.Raster.Job.Rows.{IsHeadLine, IsRows, raster_rows-IsRows}

-- What a job says of page `index`: the media, the length, whether it continues a job, where to cut,
-- the feed margin, and a head line for each row of the page.
pub record IsView (media : MediaSpec) (auto_cut : Bool) (index : ℕ) (page : Page) (view : PageView)
    : Type 0 where
  pub kind_code : view.kind_code ≡ print_information_code media.kind
  pub width_mm : view.width_mm ≡ media.width_mm
  pub length_mm : view.length_mm ≡ media.length_mm
  pub raster_lines : view.raster_lines ≡ page.height_dots
  pub continuation : view.continuation ≡ (if index == 0 then 0 else 1)
  pub various_mode : view.various_mode ≡ (if auto_cut then 0x40 else 0)
  pub expanded_mode : view.expanded_mode ≡ (if auto_cut then 0x08 else 0)
  pub margin_dots : view.margin_dots ≡ feed_margin_for_print media
  pub count : length view.lines ≡ page.height_dots
  pub shows : (r : ℕ) → r < page.height_dots → IsHeadLine media page r (get_or view.lines r [])

abbrev view_of : MediaSpec → Bool → ℕ → Page → List (List ℕ) → PageView
view_of media auto_cut index page lines = record {
  kind_code = print_information_code media.kind;
  width_mm = media.width_mm;
  length_mm = media.length_mm;
  raster_lines = page.height_dots;
  continuation = if index == 0 then 0 else 1;
  various_mode = u8_from auto_cut * 64;
  expanded_mode = u8_from auto_cut * 8;
  margin_dots = feed_margin_for_print media;
  lines = lines;
}

u32_le :
    (n : ℕ)
    → n < 4294967296
    → n % 256 + 256 * (n / 256 % 256) + 65536 * (n / 65536 % 256) + 16777216 * (n / 16777216 % 256)
      ≡ n
u32_le n h = omega arith

u16_le : (n : ℕ) → n < 65536 → n % 256 + 256 * (n / 256 % 256) ≡ n
u16_le n h = omega arith

read_page-encoded :
    (media : MediaSpec) (auto_cut : Bool) (index : ℕ) (page : Page) (rows tail : List ℕ)
    (lines : List (List ℕ))
    → page.height_dots < 4294967296
    → feed_margin_for_print media < 65536
    → read_rows page.height_dots (rows ++ tail) ≡ some (lines, tail)
    → read_page (
        print_information media page index
        ++ (mode_commands auto_cut ++ (margins media ++ (compression ++ (rows ++ tail)))))
      ≡ some (view_of media auto_cut index page lines, tail)
unfolding read_page
read_page-encoded media auto_cut index page rows tail lines hh hm e =
    rw (u32_le page.height_dots hh, u16_le (feed_margin_for_print media) hm, e)

-- The views of a job's pages, page by page.
abbrev pub Views : MediaSpec → Bool → ℕ → List Page → List PageView → Type 0
Views media auto_cut index [] [] = Unit
Views media auto_cut index [] (view ∷ views) = ⊥
Views media auto_cut index (page ∷ pages) [] = ⊥
Views media auto_cut index (page ∷ pages) (view ∷ views) =
    IsView media auto_cut index page view × Views media auto_cut (index + 1) pages views

-- What pages encode to, and what the reader gets back from them.
record IsPages (media : MediaSpec) (auto_cut : Bool) (index : ℕ) (pages : List Page)
    (result : Option (List ℕ)) : Type 0 where
  encoded : List ℕ
  views : List PageView
  returns : result ≡ some encoded
  reads : (fuel : ℕ) → length pages ≤ fuel → read_pages fuel encoded ≡ some views
  shows : Views media auto_cut index pages views

module _ (media : MediaSpec) (auto_cut : Bool) (placed : IsPlaced media)
    (u16_margin : feed_margin_for_print media < 65536) where
  view_of-IsView :
      (index : ℕ) (page : Page) (valid : IsPage media page) {result : Option (List ℕ)}
      (rows : IsRows media page placed valid page.height_dots 0 result)
      → IsView media auto_cut index page (view_of media auto_cut index page rows.lines)
  view_of-IsView index page valid rows = record {
    kind_code = refl;
    width_mm = refl;
    length_mm = refl;
    raster_lines = refl;
    continuation = refl;
    various_mode = ground arith;
    expanded_mode = ground arith;
    margin_dots = refl;
    count = rows.count;
    shows = λ r h.
        let e : 0 + r ≡ r = zero-add r in
        subst (λ n. IsHeadLine media page n (get_or rows.lines r [])) e (rows.shows r h);
  }

  read_pages-last :
      (fuel index : ℕ) (page : Page) (lines : List (List ℕ)) (rows : List ℕ)
      → page.height_dots < 4294967296
      → ((tail : List ℕ) → read_rows page.height_dots (rows ++ tail) ≡ some (lines, tail))
      → read_pages (suc fuel) (
          print_information media page index
          ++ (mode_commands auto_cut ++ (margins media ++ (compression ++ (rows ++ 0x1A ∷ [])))))
        ≡ some (view_of media auto_cut index page lines ∷ [])
  unfolding read_pages
  read_pages-last fuel index page lines rows hh reads = rw (
      read_page-encoded media auto_cut index page rows (0x1A ∷ []) lines hh u16_margin
        (reads (0x1A ∷ [])))

  read_pages-more :
      (fuel index : ℕ) (page : Page) (lines : List (List ℕ)) (rows rest : List ℕ)
      (views : List PageView)
      → page.height_dots < 4294967296
      → ((tail : List ℕ) → read_rows page.height_dots (rows ++ tail) ≡ some (lines, tail))
      → read_pages fuel rest ≡ some views
      → read_pages (suc fuel) (
          print_information media page index
          ++ (mode_commands auto_cut ++ (margins media ++ (compression ++ (rows ++ 0x0C ∷ rest)))))
        ≡ some (view_of media auto_cut index page lines ∷ views)
  unfolding read_pages
  read_pages-more fuel index page lines rows rest views hh reads e = rw (
    read_page-encoded media auto_cut index page rows (0x0C ∷ rest) lines hh u16_margin
        (reads (0x0C ∷ rest)),
    e,
  )

  -- One page, and the pages behind it.
  encode_pages-cons :
      (last index terminator : ℕ) (page : Page) (pages : List Page) (rows rest : List ℕ)
      → (if index == last then 0x1A else 0x0C) ≡ terminator
      → raster_rows media page page.height_dots 0 ≡ some rows
      → encode_pages media auto_cut last (index + 1) pages ≡ some rest
      → encode_pages media auto_cut last index (page ∷ pages)
        ≡ some (
            print_information media page index
            ++ (mode_commands auto_cut
                ++ (margins media ++ (compression ++ (rows ++ terminator ∷ rest)))))
  unfolding encode_pages
  encode_pages-cons last index terminator page pages rows rest t e k = rw (e, k, t)

  encode_pages-IsPages :
      (last index : ℕ) (page : Page) (pages : List Page)
      → last ≡ index + length pages
      → All (IsPage media) (page ∷ pages)
      → IsPages media auto_cut index
          (page ∷ pages)
          (encode_pages media auto_cut last index (page ∷ pages))
  encode_pages-IsPages last index page [] e valid =
      let rows = raster_rows-IsRows media page placed valid.0 page.height_dots 0 (omega arith) in
      record {
        encoded = _;
        views = view_of media auto_cut index page rows.lines ∷ [];
        returns =
            encode_pages-cons last index 0x1A page [] rows.encoded [] (ground arith) rows.returns
              (unfold encode_pages in refl);
        reads = reads_last rows.encoded rows.lines rows.reads;
        shows = (view_of-IsView index page valid.0 rows, tt);
      }
    where
      reads_last :
          (encoded : List ℕ) (lines : List (List ℕ))
          → ((tail : List ℕ) → read_rows page.height_dots (encoded ++ tail) ≡ some (lines, tail))
          → (fuel : ℕ) → 1 ≤ fuel
          → read_pages fuel (
              print_information media page index
              ++ (mode_commands auto_cut
                  ++ (margins media ++ (compression ++ (encoded ++ 0x1A ∷ [])))))
            ≡ some (view_of media auto_cut index page lines ∷ [])
      reads_last encoded lines reads zero h = absurd (omega arith)
      reads_last encoded lines reads (suc fuel) h =
          read_pages-last fuel index page lines encoded (omega (arith, valid.0.max_height)) reads
  encode_pages-IsPages last index page (next ∷ pages) e valid =
      let rows = raster_rows-IsRows media page placed valid.0 page.height_dots 0 (omega arith) in
      let rest = encode_pages-IsPages last (index + 1) next pages (omega arith) valid.1 in
      record {
        encoded = _;
        views = view_of media auto_cut index page rows.lines ∷ rest.views;
        returns =
            encode_pages-cons last index 0x0C page (next ∷ pages) rows.encoded rest.encoded
              (ground arith) rows.returns rest.returns;
        reads = reads_more rows.encoded rest.encoded rows.lines rest.views rows.reads rest.reads;
        shows = (view_of-IsView index page valid.0 rows, rest.shows);
      }
    where
      reads_more :
          (encoded rest : List ℕ) (lines : List (List ℕ)) (views : List PageView)
          → ((tail : List ℕ) → read_rows page.height_dots (encoded ++ tail) ≡ some (lines, tail))
          → ((fuel : ℕ) → length (next ∷ pages) ≤ fuel → read_pages fuel rest ≡ some views)
          → (fuel : ℕ) → length (page ∷ next ∷ pages) ≤ fuel
          → read_pages fuel (
              print_information media page index
              ++ (mode_commands auto_cut
                  ++ (margins media ++ (compression ++ (encoded ++ 0x0C ∷ rest)))))
            ≡ some (view_of media auto_cut index page lines ∷ views)
      reads_more encoded rest lines views reads k zero h = absurd (omega arith)
      reads_more encoded rest lines views reads k (suc fuel) h =
          read_pages-more fuel index page lines encoded rest views
            (omega (arith, valid.0.max_height)) reads (k fuel (omega arith))

-- For a size of label that fits the print head and pages that `Page::new` accepts for it,
-- `encode_job` returns a job, without a panic, and the reader gets every page back from it: the
-- media, the length, the cut and feed settings, the continuation flag on all pages but the first,
-- and for each row of the bitmap a head line with that row's dots at the offset of the media and
-- white elsewhere.
pub read_job-encode_job :
    (media : MediaSpec) (auto_cut : Bool) (page : Page) (pages : List Page)
    → IsPlaced media
    → feed_margin_for_print media < 65536
    → All (IsPage media) (page ∷ pages)
    → (job : List ℕ) × (views : List PageView) × (encode_job media auto_cut (page ∷ pages)
        ≡ some (ok job))
      × (read_job (length (page ∷ pages)) job ≡ some views)
      × Views media auto_cut 0 (page ∷ pages) views
unfolding encode_job read_job
read_job-encode_job media auto_cut page pages placed u16_margin valid =
    let body =
      encode_pages-IsPages media auto_cut placed u16_margin (length pages) 0 page pages
        (omega arith) valid in
    (
      preamble ++ body.encoded,
      body.views,
      rw body.returns,
      body.reads (length (page ∷ pages)) (omega arith),
      body.shows,
    )
