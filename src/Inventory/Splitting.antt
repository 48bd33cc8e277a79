-- ===== src/Inventory/Splitting.antt =====
-- What a split of a stored item has checked before it writes.
use text.Mathlib.Text.{◌==◌ as str_eq}
use text.Mathlib.TextPositions.{eq_refl}
use mathlib.Core.Path.{subst}
use lab_inventory.Common.{
  refl, ==_refl, String, ℕ, ◌≡◌, refl, true, false, not, ◌&&◌, Option, none, some, arith, ok,
  >>=-eq-ok, guard-eq-ok, ok-injective, not-eq-true,
}
use lab_inventory.Inventory.{FloatOps, resolve}
use lab_inventory.Inventory.Commands.{SplitInventoryItem}
use lab_inventory.Inventory.Rows.{
  InventoryItemRow, invalid_as_error, LocationQuery, validate_location, text_is, id_is, SplitPlan,
  split_checks, validate_quantity_item, or_name,
}
use lab_inventory.Inventory.Merging.{quantity_item_mode}
use lab_inventory.Inventory.Patching.{IsLocated, validate_location-IsLocated}

text_is_refl : (a : Option String) → text_is a a ≡ true
text_is_refl none = refl
text_is_refl (some s) = eq_refl s

id_is_refl : (a : Option ℕ) → id_is a a ≡ true
id_is_refl none = refl
id_is_refl (some n) = ==_refl n

not_same_place :
    (b c : Option String) (l m : Option ℕ) (s t : String)
    → (text_is b c && id_is l m && str_eq s t) ≡ false
    → ¬ ((b ≡ c) × (l ≡ m) × (s ≡ t))
not_same_place b c l m s t h (e, f, g) =
    let one = subst (λ x. text_is b x ≡ true) e (text_is_refl b) in
    let two = subst (λ x. id_is l x ≡ true) f (id_is_refl l) in
    let three = subst (λ x. str_eq s x ≡ true) g (eq_refl s) in ground arith

module _ {F : Type 0} (float : FloatOps F) (found : LocationQuery) where
  -- A split that passes its checks is of a quantity-tracked item, takes no more than is unallocated
  -- there, leaves the difference, moves the rest to a place found in the item's laboratory, and
  -- does not move it to where it is.
  pub split_checks_sound :
      (command : SplitInventoryItem F) (source : InventoryItemRow F) (plan : SplitPlan F)
      → split_checks float found command source ≡ ok plan
      → (source.tracking_mode ≡ "quantity")
        × (float.less (float.sub source.quantity_on_hand source.quantity_allocated) command.quantity
            ≡ false)
        × (plan.source_on_hand ≡ float.sub source.quantity_on_hand command.quantity)
        × IsLocated found source.laboratory_id plan.target_location_id
        × (¬ (
            (plan.target_batch_number ≡ source.batch_number)
            × (plan.target_location_id ≡ source.location_id)
            × (plan.target_status ≡ source.status)))
  unfolding split_checks
  split_checks_sound command source plan h =
      let location = resolve command.location_id source.location_id in
      let (u, mode, h1) = >>=-eq-ok (invalid_as_error (validate_quantity_item source)) _ h in
      let (enough, h2) =
        guard-eq-ok
          (not (
            float.less (float.sub source.quantity_on_hand source.quantity_allocated)
              command.quantity))
          _ _ h1 in
      let (v, placed, h3) =
        >>=-eq-ok (validate_location found source.laboratory_id location) _ h2 in
      let (moves, h4) =
        guard-eq-ok
          (not (
            text_is (resolve command.batch_number source.batch_number) source.batch_number
            && id_is location source.location_id
            && str_eq (or_name command.status source.status) source.status))
          _ _ h3 in
      subst
        (λ (p : SplitPlan F).
          (source.tracking_mode ≡ "quantity")
          × (float.less (float.sub source.quantity_on_hand source.quantity_allocated)
                command.quantity
              ≡ false)
          × (p.source_on_hand ≡ float.sub source.quantity_on_hand command.quantity)
          × IsLocated found source.laboratory_id p.target_location_id
          × (¬ (
              (p.target_batch_number ≡ source.batch_number)
              × (p.target_location_id ≡ source.location_id)
              × (p.target_status ≡ source.status))))
        (ok-injective h4)
        (
          quantity_item_mode source u mode,
          not-eq-true _ enough,
          refl,
          validate_location-IsLocated found source.laboratory_id location v placed,
          not_same_place (resolve command.batch_number source.batch_number) source.batch_number
              location source.location_id (or_name command.status source.status) source.status
              (not-eq-true _ moves),
        )
