-- ===== src/Inventory/Refusing.antt =====
-- Merges under the unique index on the quantity items: backend/src/routes/inventory_items/merge.rs.
use mathlib.Core.Path.{subst}
use lab_inventory.Common.{
  ℕ, ◌≡◌, ◌≢◌, refl, sym, ap, ◌∙◌, arith, true, List, [], ◌∷◌, map, ◌==◌, ◌⊎◌, inl, inr, Bool-cases,
  contains, length, Result, ok, err, >>=-eq-ok, ok-injective, All, AllDistinct, Among,
}
use lab_inventory.AccessControl.{Database}
use lab_inventory.AccessControl.Actors.{LaboratoryContext, authorization_actor}
use lab_inventory.Inventory.{FloatOps}
use lab_inventory.Inventory.Sources.{MergeInventoryItems, parse_merge}
use lab_inventory.Inventory.Serials.{parse_merge-AllDistinct}
use lab_inventory.Inventory.Rows.{
  InventoryItemRow, ItemError, invalid_as_error, validate_requested_ids, validate_quantity_item,
  find_row, validate_merge_compatible, merge_source, merge_sources, merge_checks,
}
use lab_inventory.Inventory.Merging.{IsMergeable, merge_checks-IsMergeable}
use lab_inventory.Inventory.Folding.{
  StockStore, fetch_items, permit_all, of_item, merge_inventory_items,
}
use lab_inventory.Inventory.Aggregates.{
  are_unique_aggregates, is_same_aggregate-IsMergeable, same_row,
}

module _ {F : Type 0} where
  Among-fetch_items :
      (ids : List ℕ) (x : InventoryItemRow F) (items : List (InventoryItemRow F))
      → Among x (fetch_items ids items)
      → Among x items
  unfolding fetch_items
  Among-fetch_items ids x [] among = among
  Among-fetch_items ids x (item ∷ items) among =
      let rest = Among-fetch_items ids x items in
      elim (Bool-cases (contains (λ a b. a == b) item.inventory_item_id ids)) [
        | inl wanted ↦
            let found : (x ≡ item) ⊎ Among x (fetch_items ids items) = rw wanted at among in
            elim found [ inl here ↦ inl here | inr later ↦ inr (rest later) ]
        | inr other ↦ inr (rest (rw other at among))
      ]

  find_row-Among :
      (rows : List (InventoryItemRow F)) (id : ℕ) (row : InventoryItemRow F)
      → find_row rows id ≡ ok row
      → Among row rows
  unfolding find_row
  find_row-Among [] id row h = cc
  find_row-Among (first ∷ rows) id row h = elim (Bool-cases (first.inventory_item_id == id)) [
    | inl this ↦ inl (sym (ok-injective (rw this at h)))
    | inr other ↦ inr (find_row-Among rows id row (rw other at h))
  ]

  merge_sources-Among :
      (rows : List (InventoryItemRow F)) (target : InventoryItemRow F) (ids : List ℕ)
      (sources : List (InventoryItemRow F))
      → merge_sources rows target ids ≡ ok sources
      → All (λ s. Among s rows) sources
  unfolding merge_sources merge_source
  merge_sources-Among rows target [] sources h = subst (All (λ s. Among s rows)) (ok-injective h) tt
  merge_sources-Among rows target (id ∷ ids) sources h =
      let (source, here, h1) = >>=-eq-ok (merge_source rows target id) _ h in
      let (more, rest, h2) = >>=-eq-ok (merge_sources rows target ids) _ h1 in
      let (row, found, h3) = >>=-eq-ok (find_row rows id) _ here in
      let (u, mode, h4) = >>=-eq-ok (invalid_as_error (validate_quantity_item row)) _ h3 in
      let (v, fits, h5) = >>=-eq-ok (validate_merge_compatible target row) _ h4 in
      subst (All (λ s. Among s rows)) (ok-injective h2) (
        subst (λ s. Among s rows) (ok-injective h5) (find_row-Among rows id row found),
        merge_sources-Among rows target ids more rest,
      )

  no_sources :
      (target : InventoryItemRow F) (sources items : List (InventoryItemRow F))
      → are_unique_aggregates items ≡ true
      → Among target items
      → All (λ s. Among s items) sources
      → target.tracking_mode ≡ "quantity"
      → All (IsMergeable target) sources
      → AllDistinct (target.inventory_item_id ∷ map (λ s. s.inventory_item_id) sources)
      → length (map (λ s. s.inventory_item_id) sources) ≡ 0
  no_sources target [] items unique stored others mode fits distinct = refl
  no_sources target (s ∷ sources) items unique stored others mode fits distinct =
      let (there, back) = is_same_aggregate-IsMergeable target s mode fits.0 in
      let one = same_row target s items unique stored others.0 there back in
      absurd (distinct.0.0 (ap (λ r. r.inventory_item_id) (sym one)))

  All-Among-fetch_items :
      (ids : List ℕ) (items sources : List (InventoryItemRow F))
      → All (λ s. Among s (fetch_items ids items)) sources
      → All (λ s. Among s items) sources
  All-Among-fetch_items ids items [] among = tt
  All-Among-fetch_items ids items (s ∷ sources) among =
      (Among-fetch_items ids s items among.0, All-Among-fetch_items ids items sources among.1)

of_item-eq-ok :
    {A : Type 0} (result : Result ItemError A) (a : A) → of_item result ≡ ok a → result ≡ ok a
of_item-eq-ok (ok value) a h = ap ok (ok-injective h)
of_item-eq-ok (err e) a h = cc

merge_checks-Among :
    {F : Type 0} (command : MergeInventoryItems) (rows sources : List (InventoryItemRow F))
    (target : InventoryItemRow F)
    → merge_checks command rows ≡ ok (target, sources)
    → Among target rows × All (λ s. Among s rows) sources
unfolding merge_checks
merge_checks-Among command rows sources target h =
    let ids = command.target_inventory_item_id ∷ command.source_inventory_item_ids in
    let (u, counted, h1) = >>=-eq-ok (validate_requested_ids ids rows) _ h in
    let (row, found, h2) = >>=-eq-ok (find_row rows command.target_inventory_item_id) _ h1 in
    let (v, mode, h3) = >>=-eq-ok (invalid_as_error (validate_quantity_item row)) _ h2 in
    let (all, checked, h4) =
      >>=-eq-ok (merge_sources rows row command.source_inventory_item_ids) _ h3 in
    let given = ok-injective h4 in
    (
      subst (λ r. Among r rows) (ap (λ p. p.0) given)
          (find_row-Among rows command.target_inventory_item_id row found),
      subst (All (λ s. Among s rows)) (ap (λ p. p.1) given)
          (merge_sources-Among rows row command.source_inventory_item_ids all checked),
    )

-- A merge never succeeds on items that the unique index of the table admits: the target and a source
-- must agree in all the columns of the index.
pub merge_inventory_items_refused :
    {F : Type 0} (add : F → F → F) (float : FloatOps F) (pool : Database)
    (context : LaboratoryContext) (target_id : ℕ) (source_ids : List ℕ)
    (command : MergeInventoryItems) (store after : StockStore F)
    → parse_merge target_id source_ids ≡ ok command
    → are_unique_aggregates store.items ≡ true
    → merge_inventory_items add float pool context command store ≢ ok after
unfolding merge_inventory_items
merge_inventory_items_refused add float pool context target_id source_ids command store after parsed
      unique h =
    let ids = command.target_inventory_item_id ∷ command.source_inventory_item_ids in
    let rows = fetch_items ids store.items in
    let (u, permitted, h1) = >>=-eq-ok (permit_all pool (authorization_actor context) ids) _ h in
    let (checked, passed, h2) = >>=-eq-ok (of_item (merge_checks command rows)) _ h1 in
    let checks = of_item-eq-ok _ _ passed in
    let (same, mode, named, fits) =
      merge_checks-IsMergeable command rows checked.1 checked.0 checks in
    let (stored, others) = merge_checks-Among command rows checked.1 checked.0 checks in
    let (distinct, nonempty) = parse_merge-AllDistinct target_id source_ids command parsed in
    let apart =
      subst AllDistinct
        (ap (λ i. i ∷ command.source_inventory_item_ids) (sym same)
          ∙ ap (λ is. checked.0.inventory_item_id ∷ is) (sym named))
        distinct in
    let empty =
      no_sources checked.0 checked.1 store.items unique
        (Among-fetch_items ids checked.0 store.items stored)
        (All-Among-fetch_items ids store.items checked.1 others) mode fits apart in
    let none_left = ap length (sym named) ∙ empty in omega (arith, none_left, nonempty)
