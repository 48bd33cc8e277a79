-- ===== src/LabelPrinting/Status/Faults.antt =====
-- The faults that a parsed status block reports, against the bits of its two error bytes.
use mathlib.Core.Bool.{or-false, or_assoc, and-false, and-true}
use lab_inventory.Common.{
  ℕ, ◌/◌, ◌%◌, ◌<◌, ◌^◌, ◌≡◌, refl, bit_and, Bool, true, false, not, ◌&&◌, ◌||◌, List, [], ◌∷◌,
  ◌++◌, ◌==◌, if◌then◌else◌, arith, get_or, ok, all_below, all_below_sound, sym, ◌∙◌, ap,
}
use lab_inventory.LabelPrinting.Status.{
  PrinterFault, PrinterStatus, parse, report, is_ready, is_empty, collect_faults, error_1_faults,
  error_2_faults, no_media, end_of_media, cutter_jam, main_unit_in_use, printer_turned_off,
  high_voltage_adapter, fan_error, replace_media, expansion_buffer_full, communication_error,
  communication_buffer_full, cover_open, cancel_key, cannot_feed_media, system_error,
}
use lab_inventory.LabelPrinting.Status.Report.{report-eq}

-- The protocol's place of each fault: 8 times the error byte, plus the bit.
abbrev pub fault_place : PrinterFault → ℕ
fault_place no_media = 0
fault_place end_of_media = 1
fault_place cutter_jam = 2
fault_place main_unit_in_use = 4
fault_place printer_turned_off = 5
fault_place high_voltage_adapter = 6
fault_place fan_error = 7
fault_place replace_media = 8
fault_place expansion_buffer_full = 9
fault_place communication_error = 10
fault_place communication_buffer_full = 11
fault_place cover_open = 12
fault_place cancel_key = 13
fault_place cannot_feed_media = 14
fault_place system_error = 15

-- Whether a list of faults holds a fault. (Different faults have different places.)
abbrev pub holds : PrinterFault → List PrinterFault → Bool
holds fault [] = false
holds fault (f ∷ fs) = fault_place f == fault_place fault || holds fault fs

abbrev pub bit_set : ℕ → ℕ → Bool
bit_set byte bit = not (bit_and byte (2 ^ bit) == 0)

holds-append :
    (fault : PrinterFault) (xs ys : List PrinterFault)
    → holds fault (xs ++ ys) ≡ (holds fault xs || holds fault ys)
holds-append fault [] ys = refl
holds-append fault (x ∷ xs) ys =
    rw (holds-append fault xs ys)
      (sym (or_assoc (fault_place x == fault_place fault) (holds fault xs) (holds fault ys)))

abbrev table_says : PrinterFault → ℕ → List (ℕ × PrinterFault) → Bool
table_says fault byte [] = false
table_says fault byte ((bit, f) ∷ table) =
    (fault_place f == fault_place fault && bit_set byte bit) || table_says fault byte table

holds_if :
    (fault f : PrinterFault) (clear : Bool) (rest : List PrinterFault)
    → holds fault (if clear then rest else f ∷ rest)
      ≡ ((fault_place f == fault_place fault && not clear) || holds fault rest)
holds_if fault f true rest = rw and-false
holds_if fault f false rest = rw and-true

holds-collect_faults :
    (fault : PrinterFault) (byte : ℕ) (table : List (ℕ × PrinterFault))
    → holds fault (collect_faults byte table) ≡ table_says fault byte table
unfolding collect_faults
holds-collect_faults fault byte [] = refl
holds-collect_faults fault byte ((bit, f) ∷ table) =
    holds_if fault f (bit_and byte (2 ^ bit) == 0) (collect_faults byte table)
    ∙ ap (λ more. (fault_place f == fault_place fault && bit_set byte bit) || more)
        (holds-collect_faults fault byte table)

tables_place :
    (fault : PrinterFault) (b1 b2 : ℕ)
    → (table_says fault b1 error_1_faults || table_says fault b2 error_2_faults)
      ≡ bit_set (if fault_place fault / 8 == 0 then b1 else b2) (fault_place fault % 8)
tables_place no_media b1 b2 = simp or-false
tables_place _ b1 b2 = simp or-false

-- Of a block that `parse` accepts, a fault is reported exactly when its bit is set in its error
-- byte, which is byte 8 or byte 9 of the block.
pub parse-faults :
    (block : List ℕ) (status : PrinterStatus) (fault : PrinterFault)
    → parse block ≡ ok status
    → holds fault status.faults
      ≡ bit_set
          (if fault_place fault / 8 == 0 then get_or block 8 0 else get_or block 9 0)
          (fault_place fault % 8)
unfolding report
parse-faults block status fault h =
    rw
      (
        ← report-eq block status h,
        holds-append fault (collect_faults (get_or block 8 0) error_1_faults)
            (collect_faults (get_or block 9 0) error_2_faults),
        holds-collect_faults fault (get_or block 8 0) error_1_faults,
        holds-collect_faults fault (get_or block 9 0) error_2_faults,
      )
      (tables_place fault (get_or block 8 0) (get_or block 9 0))

is_empty-append : (xs ys : List PrinterFault) → is_empty (xs ++ ys) ≡ (is_empty xs && is_empty ys)
unfolding is_empty
is_empty-append [] ys = refl
is_empty-append (x ∷ xs) ys = refl

abbrev same : Bool → Bool → Bool
same true b = b
same false b = not b

same→eq : (a b : Bool) → same a b ≡ true → a ≡ b
same→eq a b h = ground arith

error_1_table :
    all_below 256 (λ b. same (is_empty (collect_faults b error_1_faults)) (bit_and b 0xF7 == 0))
    ≡ true
unfolding all_below is_empty collect_faults
error_1_table = refl

error_2_table :
    all_below 256 (λ b. same (is_empty (collect_faults b error_2_faults)) (b == 0)) ≡ true
unfolding all_below is_empty collect_faults
error_2_table = refl

no_faults_1 : (b : ℕ) → b < 256 → is_empty (collect_faults b error_1_faults) ≡ (bit_and b 0xF7 == 0)
no_faults_1 b h = same→eq _ _ (all_below_sound 256 _ b error_1_table h)

no_faults_2 : (b : ℕ) → b < 256 → is_empty (collect_faults b error_2_faults) ≡ (b == 0)
no_faults_2 b h = same→eq _ _ (all_below_sound 256 _ b error_2_table h)

-- Of a block of bytes that `parse` accepts, the printer is ready exactly when the second error byte
-- is 0 and the first has no bit set other than its unused bit 3.
pub parse-is_ready :
    (block : List ℕ) (status : PrinterStatus)
    → get_or block 8 0 < 256
    → get_or block 9 0 < 256
    → parse block ≡ ok status
    → is_ready status ≡ (bit_and (get_or block 8 0) 0xF7 == 0 && get_or block 9 0 == 0)
unfolding is_ready report
parse-is_ready block status h1 h2 h = rw (
  ← report-eq block status h,
  is_empty-append (collect_faults (get_or block 8 0) error_1_faults)
      (collect_faults (get_or block 9 0) error_2_faults),
  no_faults_1 (get_or block 8 0) h1,
  no_faults_2 (get_or block 9 0) h2,
)
