-- ===== src/LabelPrinting/Raster/Job/Reader.antt =====
-- A reader of print jobs, written from the formats of the printer's commands: the specification
-- that `encode_job` is held to. `none` is a byte stream that is no print job.
use lab_inventory.Common.{
  ℕ, zero, suc, ◌+◌, ◌*◌, Option, none, some, List, [], ◌∷◌, ◌++◌, ◌==◌, leb, if◌then◌else◌, length,
  take, drop, replicate,
}
use lab_inventory.Common.Partial.{◌>>=◌}
use lab_inventory.LabelPrinting.{invalidate_bytes}
use lab_inventory.LabelPrinting.Raster.PackBits.{unpack_bits}

-- The bytes behind a fixed prefix.
unfoldable pub expect : List ℕ → List ℕ → Option (List ℕ)
expect [] bytes = some bytes
expect (p ∷ prefix) [] = none
expect (p ∷ prefix) (b ∷ bytes) = if b == p then expect prefix bytes else none

read_line : List ℕ → Option (List ℕ × List ℕ)
read_line [] = none
read_line (len ∷ rest) =
    if leb len (length rest)
    then (do line ← unpack_bits (take len rest); some (line, drop len rest))
    else none

-- `g`: one compressed raster row.
unfoldable pub read_row : List ℕ → Option (List ℕ × List ℕ)
unfolding expect read_line
read_row bytes = do rest ← expect (b'g' ∷ 0x00 ∷ []) bytes; read_line rest

unfoldable pub read_rows : ℕ → List ℕ → Option (List (List ℕ) × List ℕ)
read_rows zero bytes = some ([], bytes)
read_rows (suc n) bytes = do
  (line, rest) ← read_row bytes
  (lines, rest') ← read_rows n rest
  some (line ∷ lines, rest')

-- What a job says of one page.
pub record PageView : Type 0 where
  pub kind_code : ℕ
  pub width_mm : ℕ
  pub length_mm : ℕ
  pub raster_lines : ℕ
  pub continuation : ℕ
  pub various_mode : ℕ
  pub expanded_mode : ℕ
  pub margin_dots : ℕ
  pub lines : List (List ℕ)

-- `ESC i M`, `ESC i A`, `ESC i K`: the two mode bytes.
read_modes : List ℕ → Option (ℕ × ℕ × List ℕ)
unfolding expect
read_modes bytes = do
  r ← expect (0x1B ∷ b'i' ∷ b'M' ∷ []) bytes
  elim r [
    | [] ↦ none
    | various ∷ r' ↦ do
      r'' ← expect (0x1B ∷ b'i' ∷ b'A' ∷ 1 ∷ 0x1B ∷ b'i' ∷ b'K' ∷ []) r'
      elim r'' [ [] ↦ none | expanded ∷ rest ↦ some (various, expanded, rest) ]
  ]

-- `ESC i d` and `M`: the feed margin, and PackBits compression.
margin_field : List ℕ → Option (ℕ × List ℕ)
unfolding expect
margin_field (m0 ∷ m1 ∷ bytes) = do
  rest ← expect (b'M' ∷ 0x02 ∷ []) bytes
  some (m0 + 256 * m1, rest)
margin_field _ = none

-- The commands and rows behind the fields of `ESC i z`.
read_body : ℕ → ℕ → ℕ → ℕ → ℕ → List ℕ → Option (PageView × List ℕ)
unfolding expect read_modes margin_field
read_body kind width len height continuation bytes = do
  (various, expanded, r1) ← read_modes bytes
  r2 ← expect (0x1B ∷ b'i' ∷ b'd' ∷ []) r1
  (margin, r3) ← margin_field r2
  (lines, rest) ← read_rows height r3
  some (
    record {
      kind_code = kind;
      width_mm = width;
      length_mm = len;
      raster_lines = height;
      continuation = continuation;
      various_mode = various;
      expanded_mode = expanded;
      margin_dots = margin;
      lines = lines;
    },
    rest,
  )

-- The fields of `ESC i z` behind the flags.
read_fields : List ℕ → Option (PageView × List ℕ)
unfolding read_body
read_fields (kind ∷ width ∷ len ∷ h0 ∷ h1 ∷ h2 ∷ h3 ∷ continuation ∷ reserved ∷ rest) =
    read_body kind width len (h0 + 256 * h1 + 65536 * h2 + 16777216 * h3) continuation rest
read_fields _ = none

unfoldable pub read_page : List ℕ → Option (PageView × List ℕ)
unfolding expect read_fields
read_page bytes = do rest ← expect (0x1B ∷ b'i' ∷ b'z' ∷ 0xCE ∷ []) bytes; read_fields rest

-- A page ends with 0x0C, or with 0x1A if it is the last; nothing follows the last.
ends_job : List ℕ → PageView → Option (List PageView)
ends_job [] view = some (view ∷ [])
ends_job (b ∷ rest) view = none

read_end : (List ℕ → Option (List PageView)) → PageView → List ℕ → Option (List PageView)
unfolding ends_job
read_end continue view [] = none
read_end continue view (terminator ∷ rest) =
    if terminator == 0x1A
    then ends_job rest view
    else if terminator == 0x0C
    then (do views ← continue rest; some (view ∷ views))
    else none

unfoldable pub read_pages : ℕ → List ℕ → Option (List PageView)
unfolding read_end
read_pages zero bytes = none
read_pages (suc fuel) bytes = do
  (view, rest) ← read_page bytes
  read_end (λ r. read_pages fuel r) view rest

-- The reset preamble: invalidate, initialise, raster mode, status request.
abbrev pub job_preamble : List ℕ
job_preamble =
    replicate invalidate_bytes 0
    ++ 0x1B ∷ b'@' ∷ 0x1B ∷ b'i' ∷ b'a' ∷ 0x01 ∷ 0x1B ∷ b'i' ∷ b'S' ∷ []

-- A job of at most `fuel` pages.
unfoldable pub read_job : ℕ → List ℕ → Option (List PageView)
unfolding expect
read_job fuel bytes = do body ← expect job_preamble bytes; read_pages fuel body
