-- ===== src/LabelPrinting/Status.antt =====
-- backend/src/label_printing/status.rs: the 32-byte status block of a printer.
pub mod Report
pub mod Faults
mod Tests
use mathlib.Core.Option
use text.Mathlib.Text.{◌==◌ as str_eq}
use lab_inventory.Common.{
  ℕ, ◌^◌, bit_and, String, Bool, true, false, Option, none, some, List, [], ◌∷◌, ◌++◌, ltb, ◌==◌,
  if◌then◌else◌, length, get_or, Result, ok, err,
}
use lab_inventory.LabelPrinting.Media.{MediaKind, MediaSpec, continuous, die_cut, as_str}

abbrev pub status_block_len : ℕ
status_block_len = 32

abbrev pub offset_error_1 : ℕ
offset_error_1 = 8

abbrev pub offset_error_2 : ℕ
offset_error_2 = 9

abbrev pub offset_media_width : ℕ
offset_media_width = 10

abbrev pub offset_media_type : ℕ
offset_media_type = 11

abbrev pub offset_media_length : ℕ
offset_media_length = 17

pub data StatusError : Type 0 where
  too_short : ℕ → StatusError

pub data PrinterFault : Type 0 where
  no_media end_of_media cutter_jam main_unit_in_use printer_turned_off : PrinterFault
  high_voltage_adapter fan_error replace_media expansion_buffer_full : PrinterFault
  communication_error communication_buffer_full cover_open cancel_key : PrinterFault
  cannot_feed_media system_error : PrinterFault

-- Bit position and fault, for the two error bytes. Bit 3 of the first is unused.
abbrev pub error_1_faults : List (ℕ × PrinterFault)
error_1_faults =
    (0, no_media)
    ∷ (1, end_of_media)
    ∷ (2, cutter_jam)
    ∷ (4, main_unit_in_use)
    ∷ (5, printer_turned_off)
    ∷ (6, high_voltage_adapter)
    ∷ (7, fan_error)
    ∷ []

abbrev pub error_2_faults : List (ℕ × PrinterFault)
error_2_faults =
    (0, replace_media)
    ∷ (1, expansion_buffer_full)
    ∷ (2, communication_error)
    ∷ (3, communication_buffer_full)
    ∷ (4, cover_open)
    ∷ (5, cancel_key)
    ∷ (6, cannot_feed_media)
    ∷ (7, system_error)
    ∷ []

pub record PrinterStatus : Type 0 where
  pub media_kind : Option String
  pub media_width_mm : ℕ
  pub media_length_mm : ℕ
  pub faults : List PrinterFault

-- The faults that `collect_faults` pushes onto `out`.
pub collect_faults : ℕ → List (ℕ × PrinterFault) → List PrinterFault
collect_faults byte [] = []
collect_faults byte ((bit, fault) ∷ table) =
    let rest = collect_faults byte table in
    if bit_and byte (2 ^ bit) == 0 then rest else fault ∷ rest

abbrev pub kind_of_code : ℕ → Option MediaKind
kind_of_code code =
    if code == 0x0A then some continuous else if code == 0x0B then some die_cut else none

-- The struct that `parse` returns. Behind its length check every read is in range.
pub report : List ℕ → PrinterStatus
unfolding collect_faults as_str
report block = record {
  media_kind = Option.map as_str (kind_of_code (get_or block offset_media_type 0));
  media_width_mm = get_or block offset_media_width 0;
  media_length_mm = get_or block offset_media_length 0;
  faults =
      collect_faults (get_or block offset_error_1 0) error_1_faults
      ++ collect_faults (get_or block offset_error_2 0) error_2_faults;
}

unfoldable pub parse : List ℕ → Result StatusError PrinterStatus
unfolding report
parse block =
    if ltb (length block) status_block_len
    then err (too_short (length block))
    else ok (report block)

-- `self.media_kind.as_deref() == Some(name)`
abbrev pub opt_str_is : Option String → String → Bool
opt_str_is none name = false
opt_str_is (some s) name = str_eq s name

abbrev length_fits : MediaKind → ℕ → ℕ → Bool
length_fits continuous loaded wanted = true
length_fits die_cut loaded wanted = loaded == wanted

-- `PrinterStatus::matches`
unfoldable pub matches : PrinterStatus → MediaSpec → Bool
unfolding as_str
matches self spec =
    if opt_str_is self.media_kind (as_str spec.kind)
    then (if self.media_width_mm == spec.width_mm
        then length_fits spec.kind self.media_length_mm spec.length_mm
        else false)
    else false

pub is_empty : List PrinterFault → Bool
is_empty [] = true
is_empty (f ∷ fs) = false

unfoldable pub is_ready : PrinterStatus → Bool
unfolding is_empty
is_ready self = is_empty self.faults
