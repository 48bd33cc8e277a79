-- ===== src/Inventory/Aggregates.antt =====
-- The unique index on the quantity items, idx_asset_inventory_items_unique_quantity_aggregate of
-- backend/migrations/20260430000000_initial_schema.sql.
use text.Mathlib.Text.{◌==◌ as str_eq}
use text.Mathlib.TextEquality.{eq_iff}
use lab_inventory.Common.{
  ℕ, ◌≡◌, sym, ap, ◌∙◌, String, Bool, true, false, not, ◌&&◌, Option, none, some, List, [], ◌∷◌,
  ◌==◌, ==_iff, inl, inr, and-eq-true, not-eq-true, Among,
}
use lab_inventory.Inventory.Rows.{InventoryItemRow}
use lab_inventory.Inventory.Merging.{IsMergeable}

-- `COALESCE(batch_number, '')`
abbrev pub batch_key : Option String → String
batch_key none = ""
batch_key (some batch) = batch

-- `COALESCE(location_id, '00000000-0000-0000-0000-000000000000'::uuid)`
abbrev pub location_key : Option ℕ → ℕ
location_key none = 0
location_key (some location) = location

module _ {F : Type 0} where
  -- Two rows that the index does not admit together.
  unfoldable pub is_same_aggregate : InventoryItemRow F → InventoryItemRow F → Bool
  is_same_aggregate x y =
      str_eq x.tracking_mode "quantity"
      && str_eq y.tracking_mode "quantity"
      && x.laboratory_id == y.laboratory_id
      && x.asset_id == y.asset_id
      && str_eq (batch_key x.batch_number) (batch_key y.batch_number)
      && location_key x.location_id == location_key y.location_id
      && str_eq x.status y.status

  unfoldable pub is_new_aggregate : InventoryItemRow F → List (InventoryItemRow F) → Bool
  unfolding is_same_aggregate
  is_new_aggregate x [] = true
  is_new_aggregate x (y ∷ ys) = not (is_same_aggregate x y) && is_new_aggregate x ys

  -- The rows that the index admits.
  unfoldable pub are_unique_aggregates : List (InventoryItemRow F) → Bool
  unfolding is_new_aggregate
  are_unique_aggregates [] = true
  are_unique_aggregates (x ∷ xs) = is_new_aggregate x xs && are_unique_aggregates xs

  pub is_same_aggregate-IsMergeable :
      (target source : InventoryItemRow F)
      → target.tracking_mode ≡ "quantity"
      → IsMergeable target source
      → (is_same_aggregate target source ≡ true) × (is_same_aggregate source target ≡ true)
  unfolding is_same_aggregate
  is_same_aggregate-IsMergeable target source mode pair =
      let by_quantity = (eq_iff target.tracking_mode "quantity").1 mode in
      let source_by_quantity = (eq_iff source.tracking_mode "quantity").1 pair.by_quantity in
      (
        rw (
          by_quantity,
          source_by_quantity,
          (==_iff target.laboratory_id source.laboratory_id).1 pair.same_laboratory,
          (==_iff target.asset_id source.asset_id).1 pair.same_asset,
          (eq_iff (batch_key target.batch_number) (batch_key source.batch_number)).1
              (ap batch_key pair.same_batch),
          (==_iff (location_key target.location_id) (location_key source.location_id)).1
              (ap location_key pair.same_location),
          (eq_iff target.status source.status).1 pair.same_status,
        ),
        rw (
          source_by_quantity,
          by_quantity,
          (==_iff source.laboratory_id target.laboratory_id).1 (sym pair.same_laboratory),
          (==_iff source.asset_id target.asset_id).1 (sym pair.same_asset),
          (eq_iff (batch_key source.batch_number) (batch_key target.batch_number)).1
              (ap batch_key (sym pair.same_batch)),
          (==_iff (location_key source.location_id) (location_key target.location_id)).1
              (ap location_key (sym pair.same_location)),
          (eq_iff source.status target.status).1 (sym pair.same_status),
        ),
      )

  is_new_aggregate-Among :
      (x y : InventoryItemRow F) (rows : List (InventoryItemRow F))
      → is_new_aggregate x rows ≡ true
      → Among y rows
      → is_same_aggregate x y ≡ false
  unfolding is_new_aggregate
  is_new_aggregate-Among x y [] new among = absurd among
  is_new_aggregate-Among x y (z ∷ rows) new (inl here) =
      ap (is_same_aggregate x) here ∙ not-eq-true _ (and-eq-true _ _ new).0
  is_new_aggregate-Among x y (z ∷ rows) new (inr rest) =
      is_new_aggregate-Among x y rows (and-eq-true (not (is_same_aggregate x z)) _ new).1 rest

  -- Two stored rows that the index does not admit together are one.
  pub same_row :
      (x y : InventoryItemRow F) (rows : List (InventoryItemRow F))
      → are_unique_aggregates rows ≡ true
      → Among x rows
      → Among y rows
      → is_same_aggregate x y ≡ true
      → is_same_aggregate y x ≡ true
      → x ≡ y
  unfolding are_unique_aggregates
  same_row x y [] unique in_x in_y there back = absurd in_x
  same_row x y (z ∷ rows) unique (inl x_here) (inl y_here) there back = x_here ∙ sym y_here
  same_row x y (z ∷ rows) unique (inl x_here) (inr y_rest) there back =
      let clash = is_new_aggregate-Among z y rows (and-eq-true _ _ unique).0 y_rest in
      let other = ap (λ r. is_same_aggregate r y) x_here in cc
  same_row x y (z ∷ rows) unique (inr x_rest) (inl y_here) there back =
      let clash = is_new_aggregate-Among z x rows (and-eq-true _ _ unique).0 x_rest in
      let other = ap (λ r. is_same_aggregate r x) y_here in cc
  same_row x y (z ∷ rows) unique (inr x_rest) (inr y_rest) there back =
      same_row x y rows (and-eq-true (is_new_aggregate z rows) _ unique).1 x_rest y_rest there back
