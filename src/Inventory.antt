-- ===== src/Inventory.antt =====
-- What the inventory's commands and rows are made of: backend/src/domain/inventory_status.rs,
-- asset_tracking_mode.rs, inventory_item_serial_number.rs, the nullable updates of update_user.rs,
-- and the text and quantity checks of new_inventory_item.rs and update_inventory_item.rs. Quantities
-- are an `f64`, of which the code compares, tests and subtracts: these operations are an argument,
-- as are the operations on texts of the standard library and of unicode_segmentation.
pub mod Sources
pub mod Commands
pub mod Rows
pub mod Serials
pub mod Items
pub mod Merging
pub mod Patching
pub mod Splitting
pub mod Stock
pub mod Conservation
pub mod Folding
pub mod Aggregates
pub mod Refusing
mod Tests
use text.Mathlib.Text.{◌==◌ as str_eq}
use lab_inventory.Common.{
  ℕ, String, Bool, true, false, not, ◌&&◌, ◌||◌, Option, none, some, List, [], ◌∷◌, ltb,
  if◌then◌else◌, Result, ok, err, ◌>>=◌, guard,
}
use mathlib.Core.Option as Option

pub data InventoryStatus : Type 0 where
  available reserved borrowed retired lost consumed : InventoryStatus

pub data AssetTrackingMode : Type 0 where
  serialized quantity : AssetTrackingMode

-- The messages of the validation errors.
pub data Invalid : Type 0 where
  bad_status bad_tracking_mode bad_serial_number : Invalid
  on_hand_not_finite allocated_not_finite on_hand_negative allocated_negative : Invalid
  allocated_exceeds_on_hand : Invalid
  serialized_with_quantities serial_number_required quantity_with_serial quantity_with_serials :
      Invalid
  on_hand_required : Invalid
  serials_empty too_many_serials duplicate_serials count_not_positive count_too_large : Invalid
  several_serial_sources no_serial_source : Invalid
  ids_empty duplicate_ids target_among_sources split_not_positive : Invalid
  not_a_quantity_item merge_mismatch : Invalid
  serialized_patch_with_quantities quantity_patch_with_serial wrong_location : Invalid
  exceeds_unallocated same_aggregate : Invalid

-- `str::trim`, `graphemes(true).count()` and `chars().any(|c| c == ...)`.
pub record TextOps : Type 0 where
  pub trim : String → String
  pub grapheme_count : String → ℕ
  pub has_char : String → String → Bool

pub record FloatOps (F : Type 0) : Type 0 where
  pub zero : F
  pub one : F
  pub is_finite : F → Bool
  pub less : F → F → Bool
  pub sub : F → F → F

-- The names that `InventoryStatus::parse` compares with.
abbrev pub status_of_name : String → Option InventoryStatus
status_of_name s =
    if str_eq s "available"
    then some available
    else if str_eq s "reserved"
    then some reserved
    else if str_eq s "borrowed"
    then some borrowed
    else if str_eq s "retired"
    then some retired
    else if str_eq s "lost"
    then some lost
    else if str_eq s "consumed"
    then some consumed
    else none

abbrev pub or_invalid {ℓ} : {A : Type ℓ} → Invalid → Option A → Result Invalid A
or_invalid e none = err e
or_invalid e (some a) = ok a

-- `InventoryStatus::as_str`
unfoldable pub status_name : InventoryStatus → String
status_name available = "available"
status_name reserved = "reserved"
status_name borrowed = "borrowed"
status_name retired = "retired"
status_name lost = "lost"
status_name consumed = "consumed"

-- `AssetTrackingMode::as_str`
unfoldable pub mode_name : AssetTrackingMode → String
mode_name serialized = "serialized"
mode_name quantity = "quantity"

abbrev pub mode_of_name : String → Option AssetTrackingMode
mode_of_name s =
    if str_eq s "serialized"
    then some serialized
    else if str_eq s "quantity"
    then some quantity
    else none

abbrev is_empty_text : String → Bool
is_empty_text s = str_eq s ""

abbrev any_char : (String → Bool) → List String → Bool
any_char test [] = false
any_char test (c ∷ cs) = test c || any_char test cs

abbrev forbidden_characters : List String
forbidden_characters = "/" ∷ "\\" ∷ "\"" ∷ "<" ∷ ">" ∷ "{" ∷ "}" ∷ []

module _ (text : TextOps) where
  unfoldable pub parse_status : String → Result Invalid InventoryStatus
  parse_status s = or_invalid bad_status (status_of_name (text.trim s))

  unfoldable pub parse_tracking_mode : String → Result Invalid AssetTrackingMode
  parse_tracking_mode s = or_invalid bad_tracking_mode (mode_of_name (text.trim s))

  -- `status.as_deref().map(InventoryStatus::parse).transpose()?`
  unfoldable pub parse_optional_status : Option String → Result Invalid (Option InventoryStatus)
  unfolding parse_status
  parse_optional_status none = ok none
  parse_optional_status (some s) = do status ← parse_status s; ok (some status)

  -- `InventoryItemSerialNumber::parse`
  unfoldable pub parse_serial_number : String → Result Invalid String
  parse_serial_number s =
      let trimmed = text.trim s in
      if is_empty_text trimmed
        || ltb 256 (text.grapheme_count trimmed)
        || any_char (text.has_char trimmed) forbidden_characters
      then err bad_serial_number
      else ok trimmed

  abbrev not_blank : String → Option String
  not_blank trimmed = if is_empty_text trimmed then none else some trimmed

  unfoldable pub normalize_optional_text : Option String → Option String
  normalize_optional_text none = none
  normalize_optional_text (some value) = not_blank (text.trim value)

pub data NullableUpdate {ℓ} (A : Type ℓ) : Type ℓ where
  unchanged clear : NullableUpdate A
  set_to : A → NullableUpdate A

-- `NullableUpdate::resolve`
abbrev pub resolve {ℓ} : {A : Type ℓ} → NullableUpdate A → Option A → Option A
resolve unchanged current = current
resolve (set_to value) current = some value
resolve clear current = none

-- `Option<Option<T>>::into`
abbrev pub into_update {ℓ} : {A : Type ℓ} → Option (Option A) → NullableUpdate A
into_update (some (some value)) = set_to value
into_update (some none) = clear
into_update none = unchanged

abbrev set_or_clear : Option String → NullableUpdate String
set_or_clear none = clear
set_or_clear (some value) = set_to value

unfoldable pub nullable_text : TextOps → Option (Option String) → NullableUpdate String
unfolding normalize_optional_text
nullable_text text (some (some value)) = set_or_clear (normalize_optional_text text (some value))
nullable_text text (some none) = clear
nullable_text text none = unchanged

module _ {F : Type 0} (float : FloatOps F) where
  -- `validate_quantities` of the domain
  unfoldable pub validate_quantities : F → F → Result Invalid (Unit {0})
  validate_quantities on_hand allocated =
      if not (float.is_finite on_hand)
      then err on_hand_not_finite
      else if not (float.is_finite allocated)
      then err allocated_not_finite
      else if float.less on_hand float.zero
      then err on_hand_negative
      else if float.less allocated float.zero
      then err allocated_negative
      else if float.less on_hand allocated
      then err allocated_exceeds_on_hand
      else ok tt
