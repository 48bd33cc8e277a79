-- ===== src/Inventory/Tests.antt =====
-- The inventory theorems at concrete commands and rows. Texts are without white space, and
-- quantities are whole and not negative.
mod Stock
mod Merges
use Prim.Native.String.{len}
use text.Mathlib.Text.{◌==◌ as str_eq}
use text.Mathlib.TextEquality.{eq_iff}
use mathlib.Core.Option.{some-injective}
use lab_inventory.Common.{
  ◌≢◌, arith, Option, ℕ, ◌-◌, ◌≤◌, ◌≡◌, ◌↔◌, refl, String, true, false, none, some, List, [], ◌∷◌,
  ltb, ◌==◌, ok, All, AllDistinct, collect_set, has_duplicate,
}
use lab_inventory.Inventory.{
  available, borrowed, AssetTrackingMode, quantity, TextOps, FloatOps, unchanged, clear, set_to,
  parse_tracking_mode, parse_serial_number, parse_optional_status, validate_quantities,
  normalize_optional_text, status_name,
}
use lab_inventory.Inventory.Sources.{
  explicit_serials, parse_source, parse_serials, parse_ids, parse_merge, MergeInventoryItems,
}
use lab_inventory.Inventory.Commands.{
  NewInventoryItem, quantity_items, parse_for_tracking_mode, parse_items, UpdateInventoryItem,
  SplitInventoryItem,
}
use lab_inventory.Inventory.Rows.{
  InventoryItemRow, merge_checks, LocationQuery, patch_row, SplitPlan, split_checks,
  validate_row_quantities, validate_patch_against_tracking_mode,
}
use lab_inventory.Inventory.Serials.{
  IsSource, parse_source-IsSource, parse_merge-AllDistinct, parse_ids_iff,
}
use lab_inventory.Inventory.Items.{
  IsConsistent, AreConsistent, parse_for_tracking_mode-IsConsistent, parse_items-AreConsistent,
}
use lab_inventory.Inventory.Merging.{IsMergeable, merge_checks-IsMergeable}
use lab_inventory.Inventory.Patching.{IsLocated, IsKept, patch_row-IsKept}
use lab_inventory.Inventory.Splitting.{split_checks_sound}

abbrev plain : TextOps
plain = record { trim = λ s. s; grapheme_count = len; has_char = str_eq }

abbrev whole : FloatOps ℕ
whole = record { zero = 0; one = 1; is_finite = λ n. true; less = ltb; sub = λ a b. a - b }

two_serials :
    parse_source plain (some ("SN-1" ∷ "SN-2" ∷ [])) none none
    ≡ ok (explicit_serials ("SN-1" ∷ "SN-2" ∷ []))
unfolding parse_source parse_serial_number has_duplicate
two_serials = refl

parse_source-IsSource_example : IsSource (explicit_serials ("SN-1" ∷ "SN-2" ∷ []))
parse_source-IsSource_example =
    parse_source-IsSource plain (some ("SN-1" ∷ "SN-2" ∷ [])) none none
      (explicit_serials ("SN-1" ∷ "SN-2" ∷ [])) two_serials

parse_ids_iff_example :
    (parse_ids (4 ∷ 5 ∷ []) ≡ ok (4 ∷ 5 ∷ []))
    ↔ ((◌≡◌ {A = List ℕ} (4 ∷ 5 ∷ []) (4 ∷ 5 ∷ [])) × (1 ≤ 2) × AllDistinct {A = ℕ} (4 ∷ 5 ∷ []))
parse_ids_iff_example = parse_ids_iff (4 ∷ 5 ∷ []) (4 ∷ 5 ∷ [])

abbrev pub merge_command : MergeInventoryItems
merge_command = record { target_inventory_item_id = 3; source_inventory_item_ids = 4 ∷ 5 ∷ [] }

pub merge_parses : parse_merge 3 (4 ∷ 5 ∷ []) ≡ ok merge_command
unfolding parse_merge collect_set
merge_parses = refl

abbrev item : ℕ → ℕ → ℕ → InventoryItemRow ℕ
item id on_hand allocated = record {
  inventory_item_id = id;
  asset_id = 20;
  laboratory_id = 1;
  tracking_mode = "quantity";
  serial_number = none;
  batch_number = some "B7";
  quantity_on_hand = on_hand;
  quantity_allocated = allocated;
  location_id = some 9;
  status = "available";
  public_notes = none;
  internal_notes = none;
}

abbrev pub stored : List (InventoryItemRow ℕ)
stored = item 3 10 2 ∷ item 4 5 0 ∷ item 5 1 1 ∷ []

merge_passes : merge_checks merge_command stored ≡ ok (item 3 10 2, item 4 5 0 ∷ item 5 1 1 ∷ [])
unfolding merge_checks collect_set
merge_passes = refl

parse_merge-AllDistinct_example : AllDistinct {A = ℕ} (3 ∷ 4 ∷ 5 ∷ []) × (1 ≤ 2)
parse_merge-AllDistinct_example = parse_merge-AllDistinct 3 (4 ∷ 5 ∷ []) merge_command merge_parses

abbrev reel : NewInventoryItem ℕ
reel = record {
  serial_number = none;
  batch_number = some "B7";
  quantity_on_hand = 10;
  quantity_allocated = 2;
  location_id = some 9;
  status = available;
  public_notes = none;
  internal_notes = none;
}

reel_parses :
    parse_for_tracking_mode plain whole quantity none
      (some "B7")
      (some 10)
      (some 2)
      (some 9)
      none
      (some "")
      none
    ≡ ok reel
unfolding parse_for_tracking_mode parse_optional_status validate_quantities normalize_optional_text
reel_parses = refl

parse_for_tracking_mode-IsConsistent_example : IsConsistent plain whole quantity reel
parse_for_tracking_mode-IsConsistent_example =
    parse_for_tracking_mode-IsConsistent plain whole quantity none (some "B7") (some 10) (some 2)
      (some 9) none (some "") none reel reel_parses

reels_parse :
    parse_items plain whole quantity none none none
      (some "B7")
      (some 10)
      (some 2)
      (some 9)
      none
      (some "")
      none
    ≡ ok (quantity_items reel)
unfolding parse_items parse_optional_status validate_quantities normalize_optional_text
reels_parse = refl

parse_items-AreConsistent_example : AreConsistent plain whole quantity (quantity_items reel)
parse_items-AreConsistent_example =
    parse_items-AreConsistent plain whole quantity none none none (some "B7") (some 10) (some 2)
      (some 9) none (some "") none (quantity_items reel) reels_parse

abbrev everywhere : LocationQuery
everywhere laboratory_id location_id = ok (laboratory_id == 1)

abbrev restock : UpdateInventoryItem ℕ
restock = record {
  serial_number = none;
  batch_number = unchanged;
  quantity_on_hand = some 40;
  quantity_allocated = none;
  location_id = set_to 8;
  status = some borrowed;
  public_notes = clear;
  internal_notes = unchanged;
}

abbrev restocked : InventoryItemRow ℕ
restocked = record {
  inventory_item_id = 3;
  asset_id = 20;
  laboratory_id = 1;
  tracking_mode = "quantity";
  serial_number = none;
  batch_number = some "B7";
  quantity_on_hand = 40;
  quantity_allocated = 2;
  location_id = some 8;
  status = "borrowed";
  public_notes = none;
  internal_notes = none;
}

restocks : patch_row plain whole everywhere (item 3 10 2) restock ≡ ok restocked
unfolding patch_row parse_tracking_mode validate_row_quantities validate_patch_against_tracking_mode
    status_name
restocks = refl

patch_row-IsKept_example :
    (mode : AssetTrackingMode) × (parse_tracking_mode plain "quantity" ≡ ok mode)
    × (◌≡◌ {A = ℕ} 1 1)
    × (◌≡◌ {A = ℕ} 20 20)
    × (◌≡◌ {A = String} "quantity" "quantity")
    × IsKept mode (item 3 10 2) restocked
    × (ltb 40 0 ≡ false)
    × (ltb 2 0 ≡ false)
    × (ltb 40 2 ≡ false)
    × IsLocated everywhere 1 (some 8)
patch_row-IsKept_example =
    patch_row-IsKept plain whole everywhere (item 3 10 2) restocked restock restocks

abbrev take_three : SplitInventoryItem ℕ
take_three = record {
  quantity = 3;
  batch_number = unchanged;
  location_id = set_to 8;
  status = none;
  public_notes = none;
  internal_notes = none;
}

abbrev three_to_eight : SplitPlan ℕ
three_to_eight = record {
  source_on_hand = 7;
  target_batch_number = some "B7";
  target_location_id = some 8;
  target_status = "available";
}

splits : split_checks whole everywhere take_three (item 3 10 2) ≡ ok three_to_eight
unfolding split_checks
splits = refl

serials_parse : parse_serials plain ("SN-1" ∷ "SN-2" ∷ []) ≡ ok ("SN-1" ∷ "SN-2" ∷ [])
unfolding parse_serials parse_serial_number
serials_parse = refl

two_not_one : ◌≢◌ {A = String} "SN-2" "SN-1"
two_not_one e = let same = (eq_iff "SN-2" "SN-1").1 e in cc

differ : AllDistinct {A = String} ("SN-1" ∷ "SN-2" ∷ [])
differ = ((two_not_one, tt), (tt, tt))
