-- ===== src/Inventory/Rows.antt =====
-- The checks on stored inventory items: backend/src/routes/inventory_items/service.rs, and what
-- split.rs and merge.rs decide before they write. The rows that a query gives, the lookup of a
-- location and the final write are arguments. Rows are without their timestamps and without the
-- columns of their asset.
use text.Mathlib.Text.{◌==◌ as str_eq}
use lab_inventory.Common.{
  ℕ, String, Bool, true, false, not, ◌&&◌, ◌||◌, Option, none, some, List, [], ◌∷◌, ◌==◌,
  if◌then◌else◌, Result, ok, err, ◌>>=◌, ◌>>◌, guard, length, collect_set,
}
use lab_inventory.Inventory.{
  InventoryStatus, status_name, AssetTrackingMode, serialized, quantity, Invalid, TextOps, FloatOps,
  resolve, parse_tracking_mode, not_a_quantity_item, merge_mismatch,
  serialized_patch_with_quantities, quantity_patch_with_serial, wrong_location, on_hand_negative,
  allocated_negative, allocated_exceeds_on_hand, exceeds_unallocated, same_aggregate, ids_empty,
  duplicate_ids,
}
use lab_inventory.Inventory.Sources.{is_given, unwrap_or, is_empty_list, MergeInventoryItems}
use lab_inventory.Inventory.Commands.{UpdateInventoryItem, SplitInventoryItem}

pub record InventoryItemRow (F : Type 0) : Type 0 where
  pub inventory_item_id : ℕ
  pub asset_id : ℕ
  pub laboratory_id : ℕ
  pub tracking_mode : String
  pub serial_number : Option String
  pub batch_number : Option String
  pub quantity_on_hand : F
  pub quantity_allocated : F
  pub location_id : Option ℕ
  pub status : String
  pub public_notes : Option String
  pub internal_notes : Option String

-- `InventoryItemDatabaseError`
pub data ItemError : Type 0 where
  validation : Invalid → ItemError
  not_found conflict unexpected : ItemError

abbrev pub invalid_as_error {ℓ} : {A : Type ℓ} → Result Invalid A → Result ItemError A
invalid_as_error (ok a) = ok a
invalid_as_error (err e) = err (validation e)

abbrev pub text_is : Option String → Option String → Bool
text_is none none = true
text_is none (some t) = false
text_is (some s) none = false
text_is (some s) (some t) = str_eq s t

abbrev pub id_is : Option ℕ → Option ℕ → Bool
id_is none none = true
id_is none (some b) = false
id_is (some a) none = false
id_is (some a) (some b) = a == b

module _ {F : Type 0} where
  -- `validate_requested_ids`
  unfoldable pub validate_requested_ids :
      List ℕ → List (InventoryItemRow F) → Result ItemError (Unit {0})
  validate_requested_ids requested rows =
      if is_empty_list requested
      then err (validation ids_empty)
      else if not (length (collect_set (λ a b. a == b) [] requested) == length requested)
      then err (validation duplicate_ids)
      else if length rows == length requested
      then ok tt
      else err not_found

  unfoldable pub validate_quantity_item : InventoryItemRow F → Result Invalid (Unit {0})
  validate_quantity_item row =
      if str_eq row.tracking_mode "quantity" then ok tt else err not_a_quantity_item

  unfoldable pub validate_patch_against_tracking_mode :
      UpdateInventoryItem F → AssetTrackingMode → Result ItemError (Unit {0})
  validate_patch_against_tracking_mode patch serialized =
      if is_given patch.quantity_on_hand || is_given patch.quantity_allocated
      then err (validation serialized_patch_with_quantities)
      else ok tt
  validate_patch_against_tracking_mode patch quantity =
      if is_given patch.serial_number then err (validation quantity_patch_with_serial) else ok tt

  -- `rows.iter().find(...).cloned().ok_or(NotFound)` of merge.rs
  unfoldable pub find_row : List (InventoryItemRow F) → ℕ → Result ItemError (InventoryItemRow F)
  find_row [] id = err not_found
  find_row (row ∷ rows) id =
      let rest = find_row rows id in if row.inventory_item_id == id then ok row else rest

  unfoldable pub validate_merge_compatible :
      InventoryItemRow F → InventoryItemRow F → Result ItemError (Unit {0})
  validate_merge_compatible target source =
      if target.laboratory_id == source.laboratory_id
        && target.asset_id == source.asset_id
        && text_is target.batch_number source.batch_number
        && id_is target.location_id source.location_id
        && str_eq target.status source.status
      then ok tt
      else err (validation merge_mismatch)

  -- The body of the loop of `merge_inventory_items` over the source ids.
  unfoldable pub merge_source :
      List (InventoryItemRow F) → InventoryItemRow F → ℕ → Result ItemError (InventoryItemRow F)
  unfolding find_row validate_quantity_item validate_merge_compatible
  merge_source rows target source_id = do
    source ← find_row rows source_id
    invalid_as_error (validate_quantity_item source)
    validate_merge_compatible target source
    ok source

  unfoldable pub merge_sources :
      List (InventoryItemRow F)
      → InventoryItemRow F
      → List ℕ
      → Result ItemError (List (InventoryItemRow F))
  unfolding merge_source
  merge_sources rows target [] = ok []
  merge_sources rows target (source_id ∷ source_ids) = do
    source ← merge_source rows target source_id
    sources ← merge_sources rows target source_ids
    ok (source ∷ sources)

  -- `merge_inventory_items` from the fetched rows to its first write: the target and the sources.
  unfoldable pub merge_checks :
      MergeInventoryItems
      → List (InventoryItemRow F)
      → Result ItemError (InventoryItemRow F × List (InventoryItemRow F))
  unfolding validate_requested_ids find_row validate_quantity_item merge_sources
  merge_checks command rows = do
    validate_requested_ids (command.target_inventory_item_id ∷ command.source_inventory_item_ids)
        rows
    target ← find_row rows command.target_inventory_item_id
    invalid_as_error (validate_quantity_item target)
    sources ← merge_sources rows target command.source_inventory_item_ids
    ok (target, sources)

module _ {F : Type 0} (float : FloatOps F) where
  -- `validate_quantities` of service.rs
  unfoldable pub validate_row_quantities : F → F → Result Invalid (Unit {0})
  validate_row_quantities on_hand allocated =
      if float.less on_hand float.zero
      then err on_hand_negative
      else if float.less allocated float.zero
      then err allocated_negative
      else if float.less on_hand allocated
      then err allocated_exceeds_on_hand
      else ok tt

-- The laboratory and the location of `validate_location`, and whether its query finds the row.
abbrev pub LocationQuery : Type 0
LocationQuery = ℕ → ℕ → Result ItemError Bool

abbrev pub validate_location : LocationQuery → ℕ → Option ℕ → Result ItemError (Unit {0})
validate_location found laboratory_id none = ok tt
validate_location found laboratory_id (some location_id) = do
  here ← found laboratory_id location_id
  guard here (validation wrong_location)

abbrev pub or_name : Option InventoryStatus → String → String
or_name none name = name
or_name (some status) name = status_name status

abbrev pub or_else {ℓ} : {A : Type ℓ} → Option A → Option A → Option A
or_else none b = b
or_else (some a) b = some a

module _ {F : Type 0} where
  -- The row with the values that the patch sets.
  unfoldable pub patched_row : InventoryItemRow F → UpdateInventoryItem F → InventoryItemRow F
  patched_row existing patch = record {
    inventory_item_id = existing.inventory_item_id;
    asset_id = existing.asset_id;
    laboratory_id = existing.laboratory_id;
    tracking_mode = existing.tracking_mode;
    serial_number = or_else patch.serial_number existing.serial_number;
    batch_number = resolve patch.batch_number existing.batch_number;
    quantity_on_hand = unwrap_or patch.quantity_on_hand existing.quantity_on_hand;
    quantity_allocated = unwrap_or patch.quantity_allocated existing.quantity_allocated;
    location_id = resolve patch.location_id existing.location_id;
    status = or_name patch.status existing.status;
    public_notes = resolve patch.public_notes existing.public_notes;
    internal_notes = resolve patch.internal_notes existing.internal_notes;
  }

module _ {F : Type 0} (text : TextOps) (float : FloatOps F) (found : LocationQuery) where
  -- `apply_inventory_item_patch` up to its write: the row that it writes.
  unfoldable pub patch_row :
      InventoryItemRow F → UpdateInventoryItem F → Result ItemError (InventoryItemRow F)
  unfolding patched_row
  patch_row existing patch = do
    mode ← invalid_as_error (parse_tracking_mode text existing.tracking_mode)
    validate_patch_against_tracking_mode patch mode
    validate_location found existing.laboratory_id (resolve patch.location_id existing.location_id)
    invalid_as_error (
        validate_row_quantities float (unwrap_or patch.quantity_on_hand existing.quantity_on_hand)
          (unwrap_or patch.quantity_allocated existing.quantity_allocated))
    ok (patched_row existing patch)

-- What a split leaves at the source, and the batch, the location and the status of the target.
pub record SplitPlan (F : Type 0) : Type 0 where
  pub source_on_hand : F
  pub target_batch_number : Option String
  pub target_location_id : Option ℕ
  pub target_status : String

module _ {F : Type 0} (float : FloatOps F) (found : LocationQuery) where
  -- `split_inventory_item` from the fetched row to its first write.
  unfoldable pub split_checks :
      SplitInventoryItem F → InventoryItemRow F → Result ItemError (SplitPlan F)
  unfolding validate_quantity_item
  split_checks command source = do
    invalid_as_error (validate_quantity_item source)
    guard
        (not (
          float.less (float.sub source.quantity_on_hand source.quantity_allocated)
            command.quantity))
        (validation exceeds_unallocated)
    let batch = resolve command.batch_number source.batch_number
    let location = resolve command.location_id source.location_id
    let name = or_name command.status source.status
    validate_location found source.laboratory_id location
    guard
        (not (
          text_is batch source.batch_number
          && id_is location source.location_id
          && str_eq name source.status))
        (validation same_aggregate)
    ok (record {
      source_on_hand = float.sub source.quantity_on_hand command.quantity;
      target_batch_number = batch;
      target_location_id = location;
      target_status = name;
    })
