-- ===== src/Inventory/Tests/Stock.antt =====
-- A split of stored items: of 10 pieces of item 3, 3 go to location 8, where item 4 has 5, or nothing.
use lab_inventory.Common.{ℕ, ◌≤◌, ◌≡◌, refl, arith, none, some, List, [], ◌∷◌, ok}
use lab_inventory.AccessControl.{lab_admin, Database}
use lab_inventory.AccessControl.Actors.{
  LaboratoryContext, can_write_laboratory_resource, authorization_actor,
}
use lab_inventory.AccessControl.Views.{can_manage_inventory_item}
use lab_inventory.Inventory.Rows.{InventoryItemRow}
use lab_inventory.Inventory.Stock.{split_inventory_item}
use lab_inventory.Inventory.Conservation.{
  exact, plus, total_on_hand, total_allocated, id_count, split_inventory_item_conserves,
}
use lab_inventory.Inventory.Tests.{item, everywhere, take_three}

abbrev pub pool : Database
pool = record {
  unit_laboratory = λ id. ok none;
  location_laboratory = λ id. ok none;
  asset_category_laboratory = λ id. ok none;
  asset_parameter_laboratory = λ id. ok none;
  asset_laboratory = λ id. ok none;
  inventory_item_laboratory = λ id. ok (some 1);
  label_printer_laboratory = λ id. ok none;
  file_upload = λ id. ok none;
  attachment_assignment = λ id. ok none;
  actor_row = λ id. ok none;
}

abbrev pub head : LaboratoryContext
head = record {
  actor = record { user_id = 10; user_type = lab_admin; laboratory_id = some 1 };
  laboratory_id = 1;
}

abbrev shelf : ℕ → InventoryItemRow ℕ
shelf on_hand = record (item 4 on_hand 0) { location_id = some 8 }

abbrev before : List (InventoryItemRow ℕ)
before = item 3 10 2 ∷ shelf 5 ∷ []

abbrev after : List (InventoryItemRow ℕ)
after = item 3 7 2 ∷ shelf 8 ∷ []

splits_into : split_inventory_item plus exact everywhere pool head 9 3 take_three before ≡ ok after
unfolding split_inventory_item can_manage_inventory_item can_write_laboratory_resource
    authorization_actor
splits_into = refl

once : (id : ℕ) → id_count id before ≤ 1
unfolding id_count
once id = ground arith

split_inventory_item_conserves_example :
    (total_on_hand after ≡ total_on_hand before) × (total_allocated after ≡ total_allocated before)
split_inventory_item_conserves_example =
    split_inventory_item_conserves everywhere pool head 9 3 take_three before after once splits_into
