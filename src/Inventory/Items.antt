-- ===== src/Inventory/Items.antt =====
-- New items are consistent with how their asset is tracked.
use mathlib.Core.Path.{subst}
use lab_inventory.Common.{
  ℕ, ◌≡◌, refl, List, String, true, false, not, ◌||◌, Option, none, some, arith, ok, >>=-eq-ok,
  guard-eq-ok, ok-injective,
}
use lab_inventory.Inventory.{
  available, AssetTrackingMode, serialized, quantity, TextOps, FloatOps, parse_optional_status,
  parse_serial_number, validate_quantities, or_invalid, serial_number_required, on_hand_required,
}
use lab_inventory.Inventory.Sources.{is_given, unwrap_or, ℤ, parse_source}
use lab_inventory.Inventory.Commands.{
  NewInventoryItem, quantity_item, parse_for_tracking_mode, NewInventoryItems, serialized_items,
  quantity_items, parse_items,
}
use lab_inventory.Inventory.Serials.{IsSource, parse_source-IsSource}

module _ {F : Type 0} (text : TextOps) (float : FloatOps F) where
  -- Quantities that are finite and in order: neither is negative, and no more is allocated than
  -- there is.
  pub record IsStock (on_hand allocated : F) : Type 0 where
    pub finite_on_hand : float.is_finite on_hand ≡ true
    pub finite_allocated : float.is_finite allocated ≡ true
    pub on_hand_in_order : float.less on_hand float.zero ≡ false
    pub allocated_in_order : float.less allocated float.zero ≡ false
    pub covered : float.less on_hand allocated ≡ false

  -- A serialized item is one thing with a serial number; any other has a stock and no such number.
  abbrev pub IsConsistent : AssetTrackingMode → NewInventoryItem F → Type 0
  IsConsistent serialized item =
      ((given serial : String) × (parse_serial_number text given ≡ ok serial)
        × (item.serial_number ≡ some serial))
      × (item.quantity_on_hand ≡ float.one)
      × (item.quantity_allocated ≡ float.zero)
  IsConsistent quantity item =
      (item.serial_number ≡ none) × IsStock item.quantity_on_hand item.quantity_allocated

  validate_quantities-IsStock :
      (on_hand allocated : F) (u : Unit {0})
      → validate_quantities float on_hand allocated ≡ ok u
      → IsStock on_hand allocated
  unfolding validate_quantities
  validate_quantities-IsStock on_hand allocated u h = record {
    finite_on_hand = ground arith;
    finite_allocated = ground arith;
    on_hand_in_order = ground arith;
    allocated_in_order = ground arith;
    covered = ground arith;
  }

  -- An item that is parsed for a serialized asset has a valid serial number, one on hand and none
  -- allocated; an item for a quantity-tracked asset has no serial number, and its quantities are
  -- finite, not negative, and no more is allocated than on hand.
  pub parse_for_tracking_mode-IsConsistent :
      (mode : AssetTrackingMode) (serial batch : Option String) (on_hand allocated : Option F)
      (location : Option ℕ) (status public_notes internal_notes : Option String)
      (item : NewInventoryItem F)
      → parse_for_tracking_mode text float mode serial batch on_hand allocated location status
          public_notes internal_notes
        ≡ ok item
      → IsConsistent mode item
  unfolding parse_for_tracking_mode
  parse_for_tracking_mode-IsConsistent serialized serial batch on_hand allocated location status
        public_notes internal_notes item h =
      let (given, parsed, h1) = >>=-eq-ok (parse_optional_status text status) _ h in
      let (bare, h2) = guard-eq-ok (not (is_given on_hand || is_given allocated)) _ _ h1 in
      let (named, there, h3) = >>=-eq-ok (or_invalid serial_number_required serial) _ h2 in
      let (number, valid, h4) = >>=-eq-ok (parse_serial_number text named) _ h3 in
      subst (IsConsistent serialized) (ok-injective h4) ((named, number, valid, refl), refl, refl)
  parse_for_tracking_mode-IsConsistent quantity serial batch on_hand allocated location status
        public_notes internal_notes item h =
      let (given, parsed, h1) = >>=-eq-ok (parse_optional_status text status) _ h in
      let (bare, h2) = guard-eq-ok (not (is_given serial)) _ _ h1 in
      let (amount, there, h3) = >>=-eq-ok (or_invalid on_hand_required on_hand) _ h2 in
      let (u, valid, h4) =
        >>=-eq-ok (validate_quantities float amount (unwrap_or allocated float.zero)) _ h3 in
      subst (IsConsistent quantity) (ok-injective h4)
        (refl, validate_quantities-IsStock amount (unwrap_or allocated float.zero) u valid)

  -- What a creation command holds: a source of serial numbers or one item in stock.
  abbrev pub AreConsistent : AssetTrackingMode → NewInventoryItems F → Type 0
  AreConsistent serialized
        (serialized_items source batch location status public_notes internal_notes) =
      IsSource source
  AreConsistent serialized (quantity_items item) = ⊥
  AreConsistent quantity
        (serialized_items source batch location status public_notes internal_notes) =
      ⊥
  AreConsistent quantity (quantity_items item) = IsConsistent quantity item

  -- A creation command for a serialized asset asks for between 1 and 200 items, listed serial
  -- numbers being distinct; one for a quantity-tracked asset has a single item without a serial
  -- number, whose quantities are finite, not negative, and no more allocated than on hand.
  pub parse_items-AreConsistent :
      (mode : AssetTrackingMode) (listed numbers : Option (List String)) (count : Option ℤ)
      (batch : Option String) (on_hand allocated : Option F) (location : Option ℕ)
      (status public_notes internal_notes : Option String) (items : NewInventoryItems F)
      → parse_items text float mode listed numbers count batch on_hand allocated location status
          public_notes internal_notes
        ≡ ok items
      → AreConsistent mode items
  unfolding parse_items
  parse_items-AreConsistent serialized listed numbers count batch on_hand allocated location status
        public_notes internal_notes items h =
      let (given, parsed, h1) = >>=-eq-ok (parse_optional_status text status) _ h in
      let (bare, h2) = guard-eq-ok (not (is_given on_hand || is_given allocated)) _ _ h1 in
      let (source, made, h3) = >>=-eq-ok (parse_source text listed numbers count) _ h2 in
      subst (AreConsistent serialized) (ok-injective h3)
        (parse_source-IsSource text listed numbers count source made)
  parse_items-AreConsistent quantity listed numbers count batch on_hand allocated location status
        public_notes internal_notes items h =
      let (given, parsed, h1) = >>=-eq-ok (parse_optional_status text status) _ h in
      let (bare, h2) =
        guard-eq-ok (not (is_given listed || is_given numbers || is_given count)) _ _ h1 in
      let (amount, there, h3) = >>=-eq-ok (or_invalid on_hand_required on_hand) _ h2 in
      let spare = unwrap_or allocated float.zero in
      let (item, made, h4) =
        >>=-eq-ok
          (quantity_item text float batch amount spare location (unwrap_or given available)
            public_notes internal_notes)
          _ h3 in
      let (u, valid, h5) = >>=-eq-ok (validate_quantities float amount spare) _ made in
      subst (AreConsistent quantity) (ok-injective h4) (
        subst (IsConsistent quantity) (ok-injective h5)
          (refl, validate_quantities-IsStock amount spare u valid))
