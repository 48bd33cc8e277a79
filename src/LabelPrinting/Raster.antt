-- ===== src/LabelPrinting/Raster.antt =====
-- backend/src/label_printing/raster.rs: the byte stream of a print job. Bytes are native numbers.
pub mod PackBits
pub mod Page
pub mod Blit
pub mod Job
