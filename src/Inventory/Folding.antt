-- ===== src/Inventory/Folding.antt =====
-- A merge of stored items: `merge_inventory_items` of backend/src/routes/inventory_items/merge.rs, with
-- the statements of queries.rs. It is one transaction: an error leaves what is stored as it was. The
-- order of the fetched rows, the audit record and the response are left out. The unique index of the
-- table, in Inventory/Aggregates, is not in these definitions: a merge changes no column of it.
use lab_inventory.Common.{
  ℕ, Bool, false, Option, none, some, List, [], ◌∷◌, map, contains, ◌==◌, if◌then◌else◌, Result, ok,
  err, ◌>>=◌, ◌>>◌, guard,
}
use lab_inventory.AccessControl.{Actor, Database, DbError, inventory_item, update}
use lab_inventory.AccessControl.Actors.{LaboratoryContext, authorization_actor}
use lab_inventory.AccessControl.Permissions.{validate_permission}
use lab_inventory.Inventory.{FloatOps}
use lab_inventory.Inventory.Sources.{MergeInventoryItems}
use lab_inventory.Inventory.Rows.{InventoryItemRow, ItemError, merge_checks}
use lab_inventory.Inventory.Stock.{add_quantities}

-- A row of `asset_attachment_assignments`.
pub record AttachmentAssignment : Type 0 where
  pub attachment_id : ℕ
  pub inventory_item_id : Option ℕ

pub record StockStore (F : Type 0) : Type 0 where
  pub items : List (InventoryItemRow F)
  pub assignments : List AttachmentAssignment

-- `ANY($1)` of a column that may be null.
abbrev pub is_any : List ℕ → Option ℕ → Bool
is_any ids none = false
is_any ids (some id) = contains (λ a b. a == b) id ids

-- `move_inventory_item_attachments`
unfoldable pub move_attachments : List ℕ → ℕ → List AttachmentAssignment → List AttachmentAssignment
unfolding contains
move_attachments ids to [] = []
move_attachments ids to (row ∷ rows) =
    (if is_any ids row.inventory_item_id then record row { inventory_item_id = some to } else row)
    ∷ move_attachments ids to rows

-- The assignments that the deletion of an item deletes with it, by the foreign key of the table.
unfoldable pub cascade : ℕ → List AttachmentAssignment → List AttachmentAssignment
unfolding contains
cascade id [] = []
cascade id (row ∷ rows) =
    let rest = cascade id rows in
    if is_any (id ∷ []) row.inventory_item_id then rest else row ∷ rest

unfoldable pub cascade_all : List ℕ → List AttachmentAssignment → List AttachmentAssignment
unfolding cascade
cascade_all [] rows = rows
cascade_all (id ∷ ids) rows = cascade_all ids (cascade id rows)

module _ {F : Type 0} where
  -- `fetch_inventory_items_for_update`
  unfoldable pub fetch_items : List ℕ → List (InventoryItemRow F) → List (InventoryItemRow F)
  unfolding contains
  fetch_items ids [] = []
  fetch_items ids (item ∷ items) =
      let rest = fetch_items ids items in
      if contains (λ a b. a == b) item.inventory_item_id ids then item ∷ rest else rest

  -- `delete_inventory_item_from_database`
  unfoldable pub delete_item : ℕ → List (InventoryItemRow F) → List (InventoryItemRow F)
  delete_item id [] = []
  delete_item id (item ∷ items) =
      let rest = delete_item id items in if item.inventory_item_id == id then rest else item ∷ rest

  -- The loop that deletes the sources.
  unfoldable pub delete_items : List ℕ → List (InventoryItemRow F) → List (InventoryItemRow F)
  unfolding delete_item
  delete_items [] items = items
  delete_items (id ∷ ids) items = delete_items ids (delete_item id items)

module _ {F : Type 0} (add : F → F → F) where
  -- `iter().map(field).sum()`, from the left.
  unfoldable pub sum_from : (InventoryItemRow F → F) → F → List (InventoryItemRow F) → F
  sum_from field total [] = total
  sum_from field total (item ∷ items) = sum_from field (add total (field item)) items

  -- The writes of `merge_inventory_items`.
  unfoldable pub write_merge :
      FloatOps F → InventoryItemRow F → List (InventoryItemRow F) → StockStore F → StockStore F
  unfolding sum_from move_attachments cascade_all add_quantities delete_items
  write_merge float target sources store =
      let source_ids = map (λ s. s.inventory_item_id) sources in
      record {
        items = delete_items source_ids (
            add_quantities add target.inventory_item_id
              (sum_from (λ s. s.quantity_on_hand) float.zero sources)
              (sum_from (λ s. s.quantity_allocated) float.zero sources) store.items);
        assignments =
            cascade_all source_ids
              (move_attachments source_ids target.inventory_item_id store.assignments);
      }

-- The errors of the handler.
pub data MergeError : Type 0 where
  forbidden : MergeError
  refused : ItemError → MergeError
  permission_failed : DbError → MergeError

abbrev pub of_permission : Result DbError Bool → Result MergeError Bool
of_permission (ok granted) = ok granted
of_permission (err e) = err (permission_failed e)

abbrev pub of_item : {A : Type 0} → Result ItemError A → Result MergeError A
of_item (ok value) = ok value
of_item (err e) = err (refused e)

-- The loop over the permissions, which stops at the first refusal.
unfoldable pub permit_all : Database → Actor → List ℕ → Result MergeError (Unit {0})
unfolding validate_permission
permit_all pool actor [] = ok tt
permit_all pool actor (id ∷ ids) = do
  granted ← of_permission (validate_permission pool actor inventory_item (update id))
  guard granted forbidden
  permit_all pool actor ids

module _ {F : Type 0} (add : F → F → F) (float : FloatOps F) (pool : Database) where
  -- `merge_inventory_items`, of a command that was parsed.
  unfoldable pub merge_inventory_items :
      LaboratoryContext → MergeInventoryItems → StockStore F → Result MergeError (StockStore F)
  unfolding permit_all fetch_items merge_checks write_merge
  merge_inventory_items context command store = do
    let all_ids = command.target_inventory_item_id ∷ command.source_inventory_item_ids
    permit_all pool (authorization_actor context) all_ids
    checked ← of_item (merge_checks command (fetch_items all_ids store.items))
    ok (write_merge add float checked.0 checked.1 store)
