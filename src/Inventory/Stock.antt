-- ===== src/Inventory/Stock.antt =====
-- The writes of a split: `split_inventory_item` of backend/src/routes/inventory_items/split.rs on the
-- stored items, with the statements of queries.rs. It is one transaction: an error leaves the items as
-- they were. The addition of stored quantities and the new id are arguments. The audit record and the
-- response are left out, and the constraints of the table.
use text.Mathlib.Text.{◌==◌ as str_eq}
use lab_inventory.Common.{
  ℕ, Bool, not, ◌&&◌, Option, none, some, List, [], ◌∷◌, ◌==◌, if◌then◌else◌, Result, ok, err,
  ◌>>=◌, ◌>>◌, guard, ok_or,
}
use lab_inventory.AccessControl.{Database, DbError, inventory_item, update}
use lab_inventory.AccessControl.Actors.{LaboratoryContext, authorization_actor}
use lab_inventory.AccessControl.Permissions.{validate_permission}
use lab_inventory.Inventory.{FloatOps}
use lab_inventory.Inventory.Commands.{SplitInventoryItem}
use lab_inventory.Inventory.Rows.{
  InventoryItemRow, ItemError, not_found, text_is, id_is, or_else, LocationQuery, SplitPlan,
  split_checks,
}

module _ {F : Type 0} where
  -- `fetch_inventory_item_for_update`
  unfoldable pub find_item : ℕ → List (InventoryItemRow F) → Option (InventoryItemRow F)
  find_item id [] = none
  find_item id (item ∷ items) =
      let rest = find_item id items in if item.inventory_item_id == id then some item else rest

  -- `set_quantity_on_hand_in_database`
  unfoldable pub set_quantity_on_hand :
      ℕ → F → List (InventoryItemRow F) → List (InventoryItemRow F)
  set_quantity_on_hand id quantity [] = []
  set_quantity_on_hand id quantity (item ∷ items) =
      (if item.inventory_item_id == id then record item { quantity_on_hand = quantity } else item)
      ∷ set_quantity_on_hand id quantity items

  -- The row that holds the batch, the location and the status of a split, other than its source.
  unfoldable pub is_aggregate : InventoryItemRow F → SplitPlan F → InventoryItemRow F → Bool
  is_aggregate source plan item =
      str_eq item.tracking_mode "quantity"
      && item.laboratory_id == source.laboratory_id
      && item.asset_id == source.asset_id
      && text_is item.batch_number plan.target_batch_number
      && id_is item.location_id plan.target_location_id
      && str_eq item.status plan.target_status
      && not (item.inventory_item_id == source.inventory_item_id)

  -- `find_quantity_aggregate_for_update`
  unfoldable pub find_quantity_aggregate :
      InventoryItemRow F → SplitPlan F → List (InventoryItemRow F) → Option (InventoryItemRow F)
  unfolding is_aggregate
  find_quantity_aggregate source plan [] = none
  find_quantity_aggregate source plan (item ∷ items) =
      let rest = find_quantity_aggregate source plan items in
      if is_aggregate source plan item then some item else rest

module _ {F : Type 0} (add : F → F → F) where
  -- `add_quantities_in_database`
  unfoldable pub add_quantities : ℕ → F → F → List (InventoryItemRow F) → List (InventoryItemRow F)
  add_quantities id quantity_delta allocated_delta [] = []
  add_quantities id quantity_delta allocated_delta (item ∷ items) =
      (if item.inventory_item_id == id
        then record item {
          quantity_on_hand = add item.quantity_on_hand quantity_delta;
          quantity_allocated = add item.quantity_allocated allocated_delta;
        }
        else item)
      ∷ add_quantities id quantity_delta allocated_delta items

module _ {F : Type 0} (add : F → F → F) (float : FloatOps F) where
  -- The row that a split inserts where there is no aggregate.
  abbrev pub split_row :
      ℕ → SplitInventoryItem F → InventoryItemRow F → SplitPlan F → InventoryItemRow F
  split_row fresh command source plan = record {
    inventory_item_id = fresh;
    asset_id = source.asset_id;
    laboratory_id = source.laboratory_id;
    tracking_mode = "quantity";
    serial_number = none;
    batch_number = plan.target_batch_number;
    quantity_on_hand = command.quantity;
    quantity_allocated = float.zero;
    location_id = plan.target_location_id;
    status = plan.target_status;
    public_notes = or_else command.public_notes source.public_notes;
    internal_notes = or_else command.internal_notes source.internal_notes;
  }

  -- The target of a split: the aggregate that is there, or a new row.
  abbrev pub write_target :
      ℕ
      → SplitInventoryItem F
      → InventoryItemRow F
      → SplitPlan F
      → Option (InventoryItemRow F)
      → List (InventoryItemRow F)
      → List (InventoryItemRow F)
  write_target fresh command source plan none items = split_row fresh command source plan ∷ items
  write_target fresh command source plan (some target) items =
      add_quantities add target.inventory_item_id command.quantity float.zero items

  -- The writes of `split_inventory_item`.
  unfoldable pub write_split :
      ℕ
      → SplitInventoryItem F
      → InventoryItemRow F
      → SplitPlan F
      → List (InventoryItemRow F)
      → List (InventoryItemRow F)
  unfolding find_quantity_aggregate set_quantity_on_hand add_quantities
  write_split fresh command source plan items =
      write_target fresh command source plan (find_quantity_aggregate source plan items)
        (set_quantity_on_hand source.inventory_item_id plan.source_on_hand items)

-- The errors of the handler.
pub data SplitError : Type 0 where
  forbidden : SplitError
  refused : ItemError → SplitError
  permission_failed : DbError → SplitError

abbrev pub of_permission : Result DbError Bool → Result SplitError Bool
of_permission (ok granted) = ok granted
of_permission (err e) = err (permission_failed e)

abbrev pub of_item : {A : Type 0} → Result ItemError A → Result SplitError A
of_item (ok value) = ok value
of_item (err e) = err (refused e)

module _ {F : Type 0} (add : F → F → F) (float : FloatOps F) (found : LocationQuery)
    (pool : Database) where
  -- `split_inventory_item`, of a command that was parsed.
  unfoldable pub split_inventory_item :
      LaboratoryContext
      → ℕ
      → ℕ
      → SplitInventoryItem F
      → List (InventoryItemRow F)
      → Result SplitError (List (InventoryItemRow F))
  unfolding validate_permission find_item split_checks write_split
  split_inventory_item context fresh item_id command items = do
    granted ←
        of_permission
          (validate_permission pool (authorization_actor context) inventory_item (update item_id))
    guard granted forbidden
    source ← ok_or (find_item item_id items) (refused not_found)
    plan ← of_item (split_checks float found command source)
    ok (write_split add float fresh command source plan items)
