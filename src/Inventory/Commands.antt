-- ===== src/Inventory/Commands.antt =====
-- The commands that a request's body parses into: backend/src/domain/new_inventory_item.rs,
-- inventory_item_commands.rs and update_inventory_item.rs, but for the sources of serial numbers.
use lab_inventory.Common.{
  ℕ, String, not, ◌&&◌, ◌||◌, Option, none, some, List, Result, ok, ◌>>=◌, ◌>>◌, guard,
}
use lab_inventory.Inventory.{
  InventoryStatus, available, AssetTrackingMode, serialized, quantity, Invalid, TextOps, FloatOps,
  NullableUpdate, into_update, nullable_text, normalize_optional_text, parse_serial_number,
  parse_optional_status, validate_quantities, or_invalid, serialized_with_quantities,
  serial_number_required, quantity_with_serial, quantity_with_serials, on_hand_required,
  split_not_positive,
}
use lab_inventory.Inventory.Sources.{
  ℤ, InventoryItemSerialSource, is_given, unwrap_or, parse_source,
}

pub record NewInventoryItem (F : Type 0) : Type 0 where
  pub serial_number : Option String
  pub batch_number : Option String
  pub quantity_on_hand : F
  pub quantity_allocated : F
  pub location_id : Option ℕ
  pub status : InventoryStatus
  pub public_notes : Option String
  pub internal_notes : Option String

module _ {F : Type 0} (text : TextOps) (float : FloatOps F) where
  -- `NewInventoryItem::serialized`
  abbrev pub serialized_item :
      String
      → Option String
      → Option ℕ
      → InventoryStatus
      → Option String
      → Option String
      → NewInventoryItem F
  serialized_item serial_number batch_number location_id status public_notes internal_notes =
      record {
        serial_number = some serial_number;
        batch_number = normalize_optional_text text batch_number;
        quantity_on_hand = float.one;
        quantity_allocated = float.zero;
        location_id = location_id;
        status = status;
        public_notes = normalize_optional_text text public_notes;
        internal_notes = normalize_optional_text text internal_notes;
      }

  -- `NewInventoryItem::quantity`
  abbrev pub quantity_item :
      Option String
      → F
      → F
      → Option ℕ
      → InventoryStatus
      → Option String
      → Option String
      → Result Invalid (NewInventoryItem F)
  quantity_item batch_number on_hand allocated location_id status public_notes internal_notes = do
    validate_quantities float on_hand allocated
    ok (record {
      serial_number = none;
      batch_number = normalize_optional_text text batch_number;
      quantity_on_hand = on_hand;
      quantity_allocated = allocated;
      location_id = location_id;
      status = status;
      public_notes = normalize_optional_text text public_notes;
      internal_notes = normalize_optional_text text internal_notes;
    })

  -- The arms of `parse_for_tracking_mode`, after the status.
  abbrev pub item_of_mode :
      AssetTrackingMode
      → Option String
      → Option String
      → Option F
      → Option F
      → Option ℕ
      → InventoryStatus
      → Option String
      → Option String
      → Result Invalid (NewInventoryItem F)
  item_of_mode serialized serial batch on_hand allocated location status public_notes
        internal_notes =
      do
        guard (not (is_given on_hand || is_given allocated)) serialized_with_quantities
        given ← or_invalid serial_number_required serial
        serial_number ← parse_serial_number text given
        ok (serialized_item serial_number batch location status public_notes internal_notes)
  item_of_mode quantity serial batch on_hand allocated location status public_notes internal_notes =
      do
        guard (not (is_given serial)) quantity_with_serial
        given ← or_invalid on_hand_required on_hand
        quantity_item batch given (unwrap_or allocated float.zero) location status public_notes
            internal_notes

  -- `NewInventoryItem::parse_for_tracking_mode`
  unfoldable pub parse_for_tracking_mode :
      AssetTrackingMode
      → Option String
      → Option String
      → Option F
      → Option F
      → Option ℕ
      → Option String
      → Option String
      → Option String
      → Result Invalid (NewInventoryItem F)
  parse_for_tracking_mode mode serial batch on_hand allocated location status public_notes
        internal_notes =
      do
        given ← parse_optional_status text status
        item_of_mode mode serial batch on_hand allocated location (unwrap_or given available)
            public_notes internal_notes

pub record UpdateInventoryItem (F : Type 0) : Type 0 where
  pub serial_number : Option String
  pub batch_number : NullableUpdate String
  pub quantity_on_hand : Option F
  pub quantity_allocated : Option F
  pub location_id : NullableUpdate ℕ
  pub status : Option InventoryStatus
  pub public_notes : NullableUpdate String
  pub internal_notes : NullableUpdate String

pub record SplitInventoryItem (F : Type 0) : Type 0 where
  pub quantity : F
  pub batch_number : NullableUpdate String
  pub location_id : NullableUpdate ℕ
  pub status : Option InventoryStatus
  pub public_notes : Option String
  pub internal_notes : Option String

module _ {F : Type 0} (text : TextOps) (float : FloatOps F) where
  -- `SplitInventoryItem::parse`. Of a finite number, `quantity <= 0.0` is the opposite of
  -- `0.0 < quantity`.
  unfoldable pub parse_split :
      F
      → Option (Option String)
      → Option (Option ℕ)
      → Option String
      → Option String
      → Option String
      → Result Invalid (SplitInventoryItem F)
  parse_split amount batch location status public_notes internal_notes = do
    guard (float.is_finite amount && float.less float.zero amount) split_not_positive
    given ← parse_optional_status text status
    ok (record {
      quantity = amount;
      batch_number = nullable_text text batch;
      location_id = into_update location;
      status = given;
      public_notes = normalize_optional_text text public_notes;
      internal_notes = normalize_optional_text text internal_notes;
    })

  -- The two checks of `UpdateInventoryItem::parse`.
  abbrev pub check_on_hand : Option F → Result Invalid (Unit {0})
  check_on_hand none = ok tt
  check_on_hand (some amount) = validate_quantities float amount float.zero

  abbrev pub check_allocated : Option F → Result Invalid (Unit {0})
  check_allocated none = ok tt
  check_allocated (some amount) = validate_quantities float amount amount

  abbrev pub optional_serial : Option String → Result Invalid (Option String)
  optional_serial none = ok none
  optional_serial (some s) = do serial ← parse_serial_number text s; ok (some serial)

  -- `UpdateInventoryItem::parse`
  unfoldable pub parse_update :
      Option String
      → Option (Option String)
      → Option F
      → Option F
      → Option (Option ℕ)
      → Option String
      → Option (Option String)
      → Option (Option String)
      → Result Invalid (UpdateInventoryItem F)
  parse_update serial batch on_hand allocated location status public_notes internal_notes = do
    check_on_hand on_hand
    check_allocated allocated
    serial_number ← optional_serial serial
    given ← parse_optional_status text status
    ok (record {
      serial_number = serial_number;
      batch_number = nullable_text text batch;
      quantity_on_hand = on_hand;
      quantity_allocated = allocated;
      location_id = into_update location;
      status = given;
      public_notes = nullable_text text public_notes;
      internal_notes = nullable_text text internal_notes;
    })

pub data NewInventoryItems (F : Type 0) : Type 0 where
  serialized_items :
      InventoryItemSerialSource
      → Option String
      → Option ℕ
      → InventoryStatus
      → Option String
      → Option String
      → NewInventoryItems F
  quantity_items : NewInventoryItem F → NewInventoryItems F

module _ {F : Type 0} (text : TextOps) (float : FloatOps F) where
  -- The arms of `NewInventoryItems::parse`, after the status.
  abbrev pub items_of_mode :
      AssetTrackingMode
      → Option (List String)
      → Option (List String)
      → Option ℤ
      → Option String
      → Option F
      → Option F
      → Option ℕ
      → InventoryStatus
      → Option String
      → Option String
      → Result Invalid (NewInventoryItems F)
  items_of_mode serialized items numbers count batch on_hand allocated location status public_notes
        internal_notes =
      do
        guard (not (is_given on_hand || is_given allocated)) serialized_with_quantities
        source ← parse_source text items numbers count
        ok (
            serialized_items source (normalize_optional_text text batch) location status
              (normalize_optional_text text public_notes)
              (normalize_optional_text text internal_notes))
  items_of_mode quantity items numbers count batch on_hand allocated location status public_notes
        internal_notes =
      do
        guard (not (is_given items || is_given numbers || is_given count)) quantity_with_serials
        given ← or_invalid on_hand_required on_hand
        item ←
            quantity_item text float batch given (unwrap_or allocated float.zero) location status
              public_notes internal_notes
        ok (quantity_items item)

  -- `NewInventoryItems::parse`
  unfoldable pub parse_items :
      AssetTrackingMode
      → Option (List String)
      → Option (List String)
      → Option ℤ
      → Option String
      → Option F
      → Option F
      → Option ℕ
      → Option String
      → Option String
      → Option String
      → Result Invalid (NewInventoryItems F)
  parse_items mode items numbers count batch on_hand allocated location status public_notes
        internal_notes =
      do
        given ← parse_optional_status text status
        items_of_mode mode items numbers count batch on_hand allocated location
            (unwrap_or given available) public_notes internal_notes
