-- ===== src/Inventory/Patching.antt =====
-- What a patch of a stored item keeps.
use mathlib.Core.Path.{subst}
use lab_inventory.Common.{
  ℕ, ◌≡◌, refl, Bool, true, false, ◌||◌, Option, none, some, arith, Result, ok, err, >>=-eq-ok,
  ok-injective, if◌then◌else◌, guard, ◌∙◌, ap,
}
use lab_inventory.Inventory.{
  Invalid, wrong_location, AssetTrackingMode, serialized, quantity, TextOps, FloatOps, resolve,
  parse_tracking_mode,
}
use lab_inventory.Inventory.Sources.{is_given, unwrap_or}
use lab_inventory.Inventory.Commands.{UpdateInventoryItem}
use lab_inventory.Inventory.Rows.{
  InventoryItemRow, validation, invalid_as_error, validate_patch_against_tracking_mode,
  validate_row_quantities, LocationQuery, validate_location, patched_row, patch_row, or_else,
}

mode_ok :
    (r : Result Invalid AssetTrackingMode) (mode : AssetTrackingMode)
    → invalid_as_error r ≡ ok mode
    → r ≡ ok mode
mode_ok (ok m) mode h = ap ok (ok-injective h)
mode_ok (err e) mode h = cc

-- The location, if there is one, is found in the laboratory.
abbrev pub IsLocated : LocationQuery → ℕ → Option ℕ → Type 0
IsLocated found laboratory_id none = Unit
IsLocated found laboratory_id (some location_id) = found laboratory_id location_id ≡ ok true

guard_passed : {E : Type 0} (b : Bool) (e : E) (u : Unit {0}) → guard b e ≡ ok u → b ≡ true
guard_passed true e u h = refl
guard_passed false e u h = cc

pub validate_location-IsLocated :
    (found : LocationQuery) (laboratory_id : ℕ) (location : Option ℕ) (u : Unit {0})
    → validate_location found laboratory_id location ≡ ok u
    → IsLocated found laboratory_id location
validate_location-IsLocated found laboratory_id none u h = tt
validate_location-IsLocated found laboratory_id (some location_id) u h =
    let (here, answer, h1) = >>=-eq-ok (found laboratory_id location_id) _ h in
    answer ∙ ap ok (guard_passed here (validation wrong_location) u h1)

-- A patch leaves the quantities of a serialized item as they are, and the missing serial number of
-- any other.
abbrev pub IsKept :
    {F : Type 0} → AssetTrackingMode → InventoryItemRow F → InventoryItemRow F → Type 0
IsKept serialized before after =
    (after.quantity_on_hand ≡ before.quantity_on_hand)
    × (after.quantity_allocated ≡ before.quantity_allocated)
IsKept quantity before after = after.serial_number ≡ before.serial_number

module _ {A E : Type 0} where
  unwrap_or_absent :
      (a b : Option A) (x y : A) (e : E) (u : Unit {0})
      → (if is_given a || is_given b then err e else ok tt) ≡ ok u
      → (unwrap_or a x ≡ x) × (unwrap_or b y ≡ y)
  unwrap_or_absent none none x y e u h = (refl, refl)
  unwrap_or_absent none (some b) x y e u h = cc
  unwrap_or_absent (some a) b x y e u h = cc

  or_else_absent :
      (a b : Option A) (e : E) (u : Unit {0})
      → (if is_given a then err e else ok tt) ≡ ok u
      → or_else a b ≡ b
  or_else_absent none b e u h = refl
  or_else_absent (some a) b e u h = cc

module _ {F : Type 0} where
  patch-IsKept :
      (mode : AssetTrackingMode) (existing : InventoryItemRow F) (patch : UpdateInventoryItem F)
      (u : Unit {0})
      → validate_patch_against_tracking_mode patch mode ≡ ok u
      → IsKept mode existing (patched_row existing patch)
  unfolding validate_patch_against_tracking_mode patched_row
  patch-IsKept serialized existing patch u h =
      unwrap_or_absent patch.quantity_on_hand patch.quantity_allocated existing.quantity_on_hand
        existing.quantity_allocated _ u h
  patch-IsKept quantity existing patch u h =
      or_else_absent patch.serial_number existing.serial_number _ u h

module _ {F : Type 0} (text : TextOps) (float : FloatOps F) (found : LocationQuery) where
  validate_row_quantities_sound :
      (on_hand allocated : F) (u : Unit {0})
      → invalid_as_error (validate_row_quantities float on_hand allocated) ≡ ok u
      → (float.less on_hand float.zero ≡ false)
        × (float.less allocated float.zero ≡ false)
        × (float.less on_hand allocated ≡ false)
  unfolding validate_row_quantities
  validate_row_quantities_sound on_hand allocated u h = (ground arith, ground arith, ground arith)

  -- A patch that passes its checks keeps the item in its laboratory and asset and tracked as it
  -- was; it keeps the quantities of a serialized item and the serial number of any other; the
  -- quantities it leaves are not negative, with no more allocated than on hand; and the location it
  -- leaves, if any, is found in the item's laboratory.
  pub patch_row-IsKept :
      (existing row : InventoryItemRow F) (patch : UpdateInventoryItem F)
      → patch_row text float found existing patch ≡ ok row
      → (mode : AssetTrackingMode) × (parse_tracking_mode text existing.tracking_mode ≡ ok mode)
        × (row.laboratory_id ≡ existing.laboratory_id)
        × (row.asset_id ≡ existing.asset_id)
        × (row.tracking_mode ≡ existing.tracking_mode)
        × IsKept mode existing row
        × (float.less row.quantity_on_hand float.zero ≡ false)
        × (float.less row.quantity_allocated float.zero ≡ false)
        × (float.less row.quantity_on_hand row.quantity_allocated ≡ false)
        × IsLocated found existing.laboratory_id row.location_id
  unfolding patch_row patched_row validate_row_quantities
  patch_row-IsKept existing row patch h =
      let location = resolve patch.location_id existing.location_id in
      let on_hand = unwrap_or patch.quantity_on_hand existing.quantity_on_hand in
      let allocated = unwrap_or patch.quantity_allocated existing.quantity_allocated in
      let (mode, parsed, h1) =
        >>=-eq-ok (invalid_as_error (parse_tracking_mode text existing.tracking_mode)) _ h in
      let (u, kept, h2) = >>=-eq-ok (validate_patch_against_tracking_mode patch mode) _ h1 in
      let (v, placed, h3) =
        >>=-eq-ok (validate_location found existing.laboratory_id location) _ h2 in
      let (w, stock, h4) =
        >>=-eq-ok (invalid_as_error (validate_row_quantities float on_hand allocated)) _ h3 in
      let (positive, spare, covered) = validate_row_quantities_sound on_hand allocated w stock in
      subst
        (λ (r : InventoryItemRow F).
          (mode : AssetTrackingMode) × (parse_tracking_mode text existing.tracking_mode ≡ ok mode)
          × (r.laboratory_id ≡ existing.laboratory_id)
          × (r.asset_id ≡ existing.asset_id)
          × (r.tracking_mode ≡ existing.tracking_mode)
          × IsKept mode existing r
          × (float.less r.quantity_on_hand float.zero ≡ false)
          × (float.less r.quantity_allocated float.zero ≡ false)
          × (float.less r.quantity_on_hand r.quantity_allocated ≡ false)
          × IsLocated found existing.laboratory_id r.location_id)
        (ok-injective h4)
        (
          mode,
          mode_ok _ mode parsed,
          refl,
          refl,
          refl,
          patch-IsKept mode existing patch u kept,
          positive,
          spare,
          covered,
          validate_location-IsLocated found existing.laboratory_id location v placed,
        )
