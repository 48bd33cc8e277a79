-- ===== src/Inventory/Merging.antt =====
-- What a merge has checked of its rows before it writes.
use text.Mathlib.Text.{◌==◌ as str_eq}
use text.Mathlib.TextEquality.{eq_iff}
use mathlib.Core.Path.{subst}
use lab_inventory.Common.{
  ℕ, ◌≡◌, refl, ap, String, true, false, Option, none, some, List, [], ◌∷◌, map, arith, ==_iff, ok,
  err, >>=-eq-ok, ok-injective, All, Bool, Bool-cases, ◌&&◌, inl, inr, if◌then◌else◌,
}
use lab_inventory.Inventory.Sources.{MergeInventoryItems}
use lab_inventory.Inventory.Rows.{
  InventoryItemRow, text_is, id_is, invalid_as_error, validate_requested_ids,
  validate_quantity_item, find_row, validate_merge_compatible, merge_source, merge_sources,
  merge_checks,
}

pub text_is_eq : (a b : Option String) → text_is a b ≡ true → a ≡ b
text_is_eq none none h = refl
text_is_eq none (some t) h = cc
text_is_eq (some s) none h = cc
text_is_eq (some s) (some t) h = ap some ((eq_iff s t).0 h)

pub id_is_eq : (a b : Option ℕ) → id_is a b ≡ true → a ≡ b
id_is_eq none none h = refl
id_is_eq none (some b) h = cc
id_is_eq (some a) none h = cc
id_is_eq (some a) (some b) h = ap some ((==_iff a b).0 h)

if-eq-ok :
    {E : Type 0} (b : Bool) (e : E) (u : Unit {0}) → (if b then ok tt else err e) ≡ ok u → b ≡ true
if-eq-ok true e u h = refl
if-eq-ok false e u h = cc

and-eq-true : (a b : Bool) → (a && b) ≡ true → (a ≡ true) × (b ≡ true)
and-eq-true true b h = (refl, h)
and-eq-true false b h = cc

-- Two rows count stock of the same thing: the same asset of a laboratory, batch, place and status,
-- both by quantity.
pub record IsMergeable {F : Type 0} (target source : InventoryItemRow F) : Type 0 where
  pub same_laboratory : target.laboratory_id ≡ source.laboratory_id
  pub same_asset : target.asset_id ≡ source.asset_id
  pub same_batch : target.batch_number ≡ source.batch_number
  pub same_location : target.location_id ≡ source.location_id
  pub same_status : target.status ≡ source.status
  pub by_quantity : source.tracking_mode ≡ "quantity"

module _ {F : Type 0} where
  find_row-inventory_item_id :
      (rows : List (InventoryItemRow F)) (id : ℕ) (row : InventoryItemRow F)
      → find_row rows id ≡ ok row
      → row.inventory_item_id ≡ id
  unfolding find_row
  find_row-inventory_item_id [] id row h = cc
  find_row-inventory_item_id (r ∷ rows) id row h =
      ground (arith, find_row-inventory_item_id rows id row)

  pub quantity_item_mode :
      (row : InventoryItemRow F) (u : Unit {0})
      → invalid_as_error (validate_quantity_item row) ≡ ok u
      → row.tracking_mode ≡ "quantity"
  unfolding validate_quantity_item
  quantity_item_mode row u h = elim (Bool-cases (str_eq row.tracking_mode "quantity")) [
    | inl t ↦ (eq_iff row.tracking_mode "quantity").0 t
    | inr f ↦ cc
  ]

  validate_merge_compatible-IsMergeable :
      (target source : InventoryItemRow F) (u : Unit {0})
      → source.tracking_mode ≡ "quantity"
      → validate_merge_compatible target source ≡ ok u
      → IsMergeable target source
  unfolding validate_merge_compatible
  validate_merge_compatible-IsMergeable target source u mode h =
      let (front, status) = and-eq-true _ _ (if-eq-ok _ _ u h) in
      let (front', location) = and-eq-true _ _ front in
      let (ids, batch) = and-eq-true _ _ front' in
      let (laboratory, asset) = and-eq-true _ _ ids in
      record {
        same_laboratory = (==_iff _ _).0 laboratory;
        same_asset = (==_iff _ _).0 asset;
        same_batch = text_is_eq _ _ batch;
        same_location = id_is_eq _ _ location;
        same_status = (eq_iff _ _).0 status;
        by_quantity = mode;
      }

  merge_sources-IsMergeable :
      (rows : List (InventoryItemRow F)) (target : InventoryItemRow F) (ids : List ℕ)
      (sources : List (InventoryItemRow F))
      → merge_sources rows target ids ≡ ok sources
      → All (IsMergeable target) sources × (map (λ s. s.inventory_item_id) sources ≡ ids)
  unfolding merge_sources merge_source
  merge_sources-IsMergeable rows target [] sources h =
      subst (λ xs. All (IsMergeable target) xs × (map (λ s. s.inventory_item_id) xs ≡ []))
        (ok-injective h) (tt, refl)
  merge_sources-IsMergeable rows target (id ∷ ids) sources h =
      let (source, here, h1) = >>=-eq-ok (merge_source rows target id) _ h in
      let (more, rest, h2) = >>=-eq-ok (merge_sources rows target ids) _ h1 in
      let (row, found, h3) = >>=-eq-ok (find_row rows id) _ here in
      let (u, mode, h4) = >>=-eq-ok (invalid_as_error (validate_quantity_item row)) _ h3 in
      let (v, fits, h5) = >>=-eq-ok (validate_merge_compatible target row) _ h4 in
      let tail = merge_sources-IsMergeable rows target ids more rest in
      let pair =
        validate_merge_compatible-IsMergeable target row v (quantity_item_mode row u mode) fits in
      let named = find_row-inventory_item_id rows id row found in
      subst (λ xs. All (IsMergeable target) xs × (map (λ s. s.inventory_item_id) xs ≡ (id ∷ ids)))
        (ok-injective h2)
        (subst
          (λ (s : InventoryItemRow F).
            (IsMergeable target s × All (IsMergeable target) more)
            × (map (λ s. s.inventory_item_id) (s ∷ more) ≡ (id ∷ ids)))
          (ok-injective h5) ((pair, tail.0), rw (named, tail.1) refl))

  -- Before a merge writes, it has the target row and the source rows of the command, in the order
  -- of the command; each source matches the target in laboratory, asset, batch, location and
  -- status, and all are tracked by quantity.
  pub merge_checks-IsMergeable :
      (command : MergeInventoryItems) (rows sources : List (InventoryItemRow F))
      (target : InventoryItemRow F)
      → merge_checks command rows ≡ ok (target, sources)
      → (target.inventory_item_id ≡ command.target_inventory_item_id)
        × (target.tracking_mode ≡ "quantity")
        × (map (λ s. s.inventory_item_id) sources ≡ command.source_inventory_item_ids)
        × All (IsMergeable target) sources
  unfolding merge_checks
  merge_checks-IsMergeable command rows sources target h =
      let ids = command.target_inventory_item_id ∷ command.source_inventory_item_ids in
      let (u, counted, h1) = >>=-eq-ok (validate_requested_ids ids rows) _ h in
      let (row, found, h2) = >>=-eq-ok (find_row rows command.target_inventory_item_id) _ h1 in
      let (v, mode, h3) = >>=-eq-ok (invalid_as_error (validate_quantity_item row)) _ h2 in
      let (all, checked, h4) =
        >>=-eq-ok (merge_sources rows row command.source_inventory_item_ids) _ h3 in
      let (fits, named) =
        merge_sources-IsMergeable rows row command.source_inventory_item_ids all checked in
      subst
        (λ (r : InventoryItemRow F × List (InventoryItemRow F)).
          (r.0.inventory_item_id ≡ command.target_inventory_item_id)
          × (r.0.tracking_mode ≡ "quantity")
          × (map (λ s. s.inventory_item_id) r.1 ≡ command.source_inventory_item_ids)
          × All (IsMergeable r.0) r.1)
        (ok-injective h4)
        (
          find_row-inventory_item_id rows command.target_inventory_item_id row found,
          quantity_item_mode row v mode,
          named,
          fits,
        )
