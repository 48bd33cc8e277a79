-- ===== src/Inventory/Tests/Merges.antt =====
-- A merge of stored items. Without the unique index of the table, as in
-- quantity_inventory_items_merge_strictly_and_reject_mismatched_aggregates of
-- backend/tests/api/inventory_items.rs, which drops it, items 4 and 5 go into item 3, and the
-- attachment of item 5 follows.
use lab_inventory.Common.{ℕ, ◌≡◌, ◌≢◌, true, refl, none, some, [], ◌∷◌, ok, collect_set, contains}
use lab_inventory.AccessControl.Actors.{can_write_laboratory_resource, authorization_actor}
use lab_inventory.AccessControl.Views.{can_manage_inventory_item}
use lab_inventory.Inventory.Folding.{StockStore, merge_inventory_items}
use lab_inventory.Inventory.Aggregates.{are_unique_aggregates}
use lab_inventory.Inventory.Refusing.{merge_inventory_items_refused}
use lab_inventory.Inventory.Conservation.{exact, plus}
use lab_inventory.Inventory.Tests.{item, stored, merge_command, merge_parses}
use lab_inventory.Inventory.Tests.Stock.{pool, head}

abbrev before : StockStore ℕ
before = record {
  items = item 6 2 0 ∷ stored;
  assignments =
      record { attachment_id = 40; inventory_item_id = some 5 }
      ∷ record { attachment_id = 41; inventory_item_id = none }
      ∷ [];
}

abbrev after : StockStore ℕ
after = record {
  items = item 6 2 0 ∷ item 3 16 3 ∷ [];
  assignments =
      record { attachment_id = 40; inventory_item_id = some 3 }
      ∷ record { attachment_id = 41; inventory_item_id = none }
      ∷ [];
}

merges_into : merge_inventory_items plus exact pool head merge_command before ≡ ok after
unfolding merge_inventory_items can_manage_inventory_item can_write_laboratory_resource
    authorization_actor collect_set contains
merges_into = refl

-- Rows in three places, which the index admits.
abbrev apart : StockStore ℕ
apart = record before {
  items =
      item 3 10 2
      ∷ record (item 4 5 0) { location_id = some 8 }
      ∷ record (item 5 1 1) { location_id = none }
      ∷ [];
}

admitted : are_unique_aggregates apart.items ≡ true
unfolding are_unique_aggregates
admitted = refl

merge_inventory_items_refused_example :
    merge_inventory_items plus exact pool head merge_command apart ≢ ok after
merge_inventory_items_refused_example =
    merge_inventory_items_refused plus exact pool head 3 (4 ∷ 5 ∷ []) merge_command apart after
      merge_parses admitted
