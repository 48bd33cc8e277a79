-- ===== src/Inventory/Conservation.antt =====
-- A split moves stock and neither makes nor loses any: backend/src/routes/inventory_items/split.rs, in
-- exact arithmetic, with natural numbers for the quantities.
use mathlib.Core.Option.{some-injective}
use mathlib.Core.Path.{subst}
use lab_inventory.Common.{
  ℕ, suc, ◌+◌, ◌-◌, ◌≤◌, ◌≡◌, refl, ap, ◌∙◌, arith, true, false, Option, none, some, List, [], ◌∷◌,
  ◌==◌, ltb, if◌then◌else◌, Bool-cases, inl, inr, Result, ok, err, ok_or, >>=-eq-ok, guard-eq-ok,
  ok-injective, ok_or-eq-ok,
}
use lab_inventory.Inventory.{FloatOps}
use lab_inventory.AccessControl.{Database, inventory_item, update}
use lab_inventory.AccessControl.Actors.{LaboratoryContext, authorization_actor}
use lab_inventory.AccessControl.Permissions.{validate_permission}
use lab_inventory.Inventory.Commands.{SplitInventoryItem}
use lab_inventory.Inventory.Rows.{
  InventoryItemRow, ItemError, not_found, LocationQuery, SplitPlan, split_checks,
}
use lab_inventory.Inventory.Splitting.{split_checks_sound}
use lab_inventory.Inventory.Stock.{
  find_item, set_quantity_on_hand, is_aggregate, find_quantity_aggregate, add_quantities,
  write_target, write_split, of_permission, of_item, refused, split_inventory_item,
}

module _ {F : Type 0} where
  pub find_item-inventory_item_id :
      (id : ℕ) (items : List (InventoryItemRow F)) (item : InventoryItemRow F)
      → find_item id items ≡ some item
      → item.inventory_item_id ≡ id
  unfolding find_item
  find_item-inventory_item_id id [] item h = cc
  find_item-inventory_item_id id (i ∷ items) item h =
      ground (arith, find_item-inventory_item_id id items item)

abbrev pub exact : FloatOps ℕ
exact = record { zero = 0; one = 1; is_finite = λ q. true; less = ltb; sub = λ a b. a - b }

-- What the items have on hand together, and how much of it is allocated.
unfoldable pub total_on_hand : List (InventoryItemRow ℕ) → ℕ
total_on_hand [] = 0
total_on_hand (item ∷ items) = item.quantity_on_hand + total_on_hand items

unfoldable pub total_allocated : List (InventoryItemRow ℕ) → ℕ
total_allocated [] = 0
total_allocated (item ∷ items) = item.quantity_allocated + total_allocated items

-- The number of rows with an id, at most 1 by the primary key.
unfoldable pub id_count : ℕ → List (InventoryItemRow ℕ) → ℕ
id_count id [] = 0
id_count id (item ∷ items) =
    let rest = id_count id items in if item.inventory_item_id == id then suc rest else rest

total_on_hand-set_none :
    (id quantity : ℕ) (items : List (InventoryItemRow ℕ))
    → id_count id items ≡ 0
    → total_on_hand (set_quantity_on_hand id quantity items) ≡ total_on_hand items
unfolding id_count set_quantity_on_hand total_on_hand
total_on_hand-set_none id quantity [] absent = refl
total_on_hand-set_none id quantity (item ∷ items) absent =
    ground (arith, total_on_hand-set_none id quantity items)

-- The row that is set changes the total by the difference.
total_on_hand-set_quantity_on_hand :
    (id quantity : ℕ) (items : List (InventoryItemRow ℕ)) (item : InventoryItemRow ℕ)
    → id_count id items ≤ 1
    → find_item id items ≡ some item
    → total_on_hand (set_quantity_on_hand id quantity items) + item.quantity_on_hand
      ≡ total_on_hand items + quantity
unfolding id_count set_quantity_on_hand total_on_hand find_item
total_on_hand-set_quantity_on_hand id quantity [] item one found = cc
total_on_hand-set_quantity_on_hand id quantity (first ∷ items) item one found =
    elim (Bool-cases (first.inventory_item_id == id)) [
      | inl this ↦
          let same = ap (λ i. i.quantity_on_hand) (some-injective _ _ (rw this at found)) in
          let absent : id_count id items ≡ 0 = ground (arith, this, one) in
          rw this (omega (arith, same, total_on_hand-set_none id quantity items absent))
      | inr other ↦
          let below : id_count id items ≤ 1 = ground (arith, one) in
          let rest =
            total_on_hand-set_quantity_on_hand id quantity items item below (rw other at found) in
          rw other (omega (arith, rest))
    ]

id_count-set_quantity_on_hand :
    (id id' quantity : ℕ) (items : List (InventoryItemRow ℕ))
    → id_count id (set_quantity_on_hand id' quantity items) ≡ id_count id items
unfolding id_count set_quantity_on_hand
id_count-set_quantity_on_hand id id' quantity [] = refl
id_count-set_quantity_on_hand id id' quantity (item ∷ items) =
    ground (arith, id_count-set_quantity_on_hand id id' quantity items)

total_allocated-set_quantity_on_hand :
    (id quantity : ℕ) (items : List (InventoryItemRow ℕ))
    → total_allocated (set_quantity_on_hand id quantity items) ≡ total_allocated items
unfolding total_allocated set_quantity_on_hand
total_allocated-set_quantity_on_hand id quantity [] = refl
total_allocated-set_quantity_on_hand id quantity (item ∷ items) =
    ground (arith, total_allocated-set_quantity_on_hand id quantity items)

abbrev pub plus : ℕ → ℕ → ℕ
plus a b = a + b

total_on_hand-add_none :
    (id delta : ℕ) (items : List (InventoryItemRow ℕ))
    → id_count id items ≡ 0
    → total_on_hand (add_quantities plus id delta 0 items) ≡ total_on_hand items
unfolding id_count add_quantities total_on_hand
total_on_hand-add_none id delta [] absent = refl
total_on_hand-add_none id delta (item ∷ items) absent =
    ground (arith, total_on_hand-add_none id delta items)

total_on_hand-add_quantities :
    (id delta : ℕ) (items : List (InventoryItemRow ℕ))
    → id_count id items ≡ 1
    → total_on_hand (add_quantities plus id delta 0 items) ≡ total_on_hand items + delta
unfolding id_count add_quantities total_on_hand
total_on_hand-add_quantities id delta [] one = absurd (omega arith)
total_on_hand-add_quantities id delta (item ∷ items) one =
    elim (Bool-cases (item.inventory_item_id == id)) [
      | inl this ↦
          let absent : id_count id items ≡ 0 = ground (arith, this, one) in
          rw this (omega (arith, total_on_hand-add_none id delta items absent))
      | inr other ↦
          rw other (omega (arith, total_on_hand-add_quantities id delta items (rw other at one)))
    ]

total_allocated-add_quantities :
    (id delta : ℕ) (items : List (InventoryItemRow ℕ))
    → total_allocated (add_quantities plus id delta 0 items) ≡ total_allocated items
unfolding total_allocated add_quantities
total_allocated-add_quantities id delta [] = refl
total_allocated-add_quantities id delta (item ∷ items) =
    ground (arith, total_allocated-add_quantities id delta items)

find_quantity_aggregate-id_count :
    (source : InventoryItemRow ℕ) (plan : SplitPlan ℕ) (items : List (InventoryItemRow ℕ))
    (target : InventoryItemRow ℕ)
    → find_quantity_aggregate source plan items ≡ some target
    → 1 ≤ id_count target.inventory_item_id items
unfolding find_quantity_aggregate id_count
find_quantity_aggregate-id_count source plan [] target found = cc
find_quantity_aggregate-id_count source plan (item ∷ items) target found =
    elim (Bool-cases (is_aggregate source plan item)) [
      | inl this ↦
          let same = ap (λ i. i.inventory_item_id) (some-injective _ _ (rw this at found)) in
          ground (arith, same)
      | inr other ↦
          let rest =
            find_quantity_aggregate-id_count source plan items target (rw other at found) in
          ground (arith, rest)
    ]

-- The total of what a split writes, target by target.
total_on_hand-write_target :
    (fresh : ℕ) (command : SplitInventoryItem ℕ) (source : InventoryItemRow ℕ) (plan : SplitPlan ℕ)
    (target : Option (InventoryItemRow ℕ)) (items before : List (InventoryItemRow ℕ))
    → find_quantity_aggregate source plan before ≡ target
    → ((id : ℕ) → id_count id before ≤ 1)
    → ((id : ℕ) → id_count id items ≡ id_count id before)
    → total_on_hand (write_target plus exact fresh command source plan target items)
      ≡ total_on_hand items + command.quantity
unfolding total_on_hand
total_on_hand-write_target fresh command source plan none items before found one same = omega arith
total_on_hand-write_target fresh command source plan (some target) items before found one same =
    let once = find_quantity_aggregate-id_count source plan before target found in
    let most = one target.inventory_item_id in
    let kept = same target.inventory_item_id in
    total_on_hand-add_quantities target.inventory_item_id command.quantity items (omega arith)

total_allocated-write_target :
    (fresh : ℕ) (command : SplitInventoryItem ℕ) (source : InventoryItemRow ℕ) (plan : SplitPlan ℕ)
    (target : Option (InventoryItemRow ℕ)) (items : List (InventoryItemRow ℕ))
    → total_allocated (write_target plus exact fresh command source plan target items)
      ≡ total_allocated items
unfolding total_allocated
total_allocated-write_target fresh command source plan none items = omega arith
total_allocated-write_target fresh command source plan (some target) items =
    total_allocated-add_quantities target.inventory_item_id command.quantity items

ltb-eq-false : (a b : ℕ) → ltb a b ≡ false → b ≤ a
ltb-eq-false a b h = ground arith

of_item-eq-ok :
    {A : Type 0} (result : Result ItemError A) (a : A) → of_item result ≡ ok a → result ≡ ok a
of_item-eq-ok (ok value) a h = ap ok (ok-injective h)
of_item-eq-ok (err e) a h = cc

write_split-conserves :
    (fresh : ℕ) (command : SplitInventoryItem ℕ) (source : InventoryItemRow ℕ) (plan : SplitPlan ℕ)
    (items : List (InventoryItemRow ℕ))
    → ((id : ℕ) → id_count id items ≤ 1)
    → find_item source.inventory_item_id items ≡ some source
    → ltb (source.quantity_on_hand - source.quantity_allocated) command.quantity ≡ false
    → plan.source_on_hand ≡ source.quantity_on_hand - command.quantity
    → (total_on_hand (write_split plus exact fresh command source plan items) ≡ total_on_hand items)
      × (total_allocated (write_split plus exact fresh command source plan items)
          ≡ total_allocated items)
unfolding write_split
write_split-conserves fresh command source plan items one found enough left =
    let id = source.inventory_item_id in
    let lowered = set_quantity_on_hand id plan.source_on_hand items in
    let target = find_quantity_aggregate source plan items in
    let within =
      ltb-eq-false (source.quantity_on_hand - source.quantity_allocated) command.quantity enough in
    let lowers =
      total_on_hand-set_quantity_on_hand id plan.source_on_hand items source (one id) found in
    let raises =
      total_on_hand-write_target fresh command source plan target lowered items refl one
        (λ i. id_count-set_quantity_on_hand i id plan.source_on_hand items) in
    (
      omega (arith, within, lowers, raises, left),
      total_allocated-write_target fresh command source plan target lowered
          ∙ total_allocated-set_quantity_on_hand id plan.source_on_hand items,
    )

-- A split that succeeds leaves the quantity on hand of all items together, and the allocated one, as
-- they were, whether it adds to a row that is there or inserts one. The ids of the items are unique.
pub split_inventory_item_conserves :
    (found : LocationQuery) (pool : Database) (context : LaboratoryContext) (fresh item_id : ℕ)
    (command : SplitInventoryItem ℕ) (items after : List (InventoryItemRow ℕ))
    → ((id : ℕ) → id_count id items ≤ 1)
    → split_inventory_item plus exact found pool context fresh item_id command items ≡ ok after
    → (total_on_hand after ≡ total_on_hand items) × (total_allocated after ≡ total_allocated items)
unfolding split_inventory_item
split_inventory_item_conserves found pool context fresh item_id command items after one h =
    let (granted, permitted, h1) =
      >>=-eq-ok
        (of_permission
          (validate_permission pool (authorization_actor context) inventory_item (update item_id)))
        _ h in
    let (allowed, h2) = guard-eq-ok granted _ _ h1 in
    let (source, known, h3) =
      >>=-eq-ok (ok_or (find_item item_id items) (refused not_found)) _ h2 in
    let (plan, checked, h4) = >>=-eq-ok (of_item (split_checks exact found command source)) _ h3 in
    let read = ok_or-eq-ok _ _ _ known in
    let (mode, enough, left, placed, moves) =
      split_checks_sound exact found command source plan (of_item-eq-ok _ _ checked) in
    subst
      (λ rows.
        (total_on_hand rows ≡ total_on_hand items) × (total_allocated rows ≡ total_allocated items))
      (ok-injective h4)
      (write_split-conserves fresh command source plan items one
        (ap (λ i. find_item i items) (find_item-inventory_item_id item_id items source read) ∙ read)
        enough left)
