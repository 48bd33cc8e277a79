-- ===== src/LabelPrinting.antt =====
-- backend/src/label_printing/mod.rs: the constants of the Brother QL raster protocol.
pub mod Media
pub mod Raster
pub mod Status
pub mod Transport
mod Tests
use lab_inventory.Common.{ℕ}

-- Print head width in dots.
abbrev pub pins : ℕ
pins = 720

-- Bytes in one full-width raster row.
abbrev pub bytes_per_row : ℕ
bytes_per_row = 90

-- Zero bytes that clear a half-finished job out of the printer's buffer.
abbrev pub invalidate_bytes : ℕ
invalidate_bytes = 400

abbrev pub min_raster_lines : ℕ
min_raster_lines = 150

abbrev pub max_raster_lines : ℕ
max_raster_lines = 11811

abbrev pub default_printer_port : ℕ
default_printer_port = 9100

abbrev pub min_printer_port : ℕ
min_printer_port = 1024
