-- ===== src/Inventory/Sources.antt =====
-- Serial numbers and ids that a command lists: `InventoryItemSerialSource` of
-- backend/src/domain/new_inventory_item.rs, and `InventoryItemIds` and `MergeInventoryItems` of
-- inventory_item_commands.rs. Ids are native numbers.
use text.Mathlib.Text.{◌==◌ as str_eq}
use lab_inventory.Common.{
  ℕ, ◌%◌, ◌^◌, String, Bool, true, false, not, Option, none, some, List, [], ◌∷◌, ltb, ◌==◌,
  if◌then◌else◌, Result, ok, err, ◌>>=◌, ◌>>◌, guard, length, has_duplicate, collect_set, contains,
}
use lab_inventory.Inventory.{
  Invalid, TextOps, parse_serial_number, serials_empty, too_many_serials, duplicate_serials,
  count_not_positive, count_too_large, several_serial_sources, no_serial_source, ids_empty,
  duplicate_ids, target_among_sources,
}

-- An `i64`.
pub data ℤ : Type 0 where
  pos negsuc : ℕ → ℤ

pub data InventoryItemSerialSource : Type 0 where
  explicit_serials : List String → InventoryItemSerialSource
  generate_serials : ℕ → InventoryItemSerialSource

abbrev pub is_given {ℓ} : {A : Type ℓ} → Option A → Bool
is_given none = false
is_given (some a) = true

abbrev pub unwrap_or {ℓ} : {A : Type ℓ} → Option A → A → A
unwrap_or none d = d
unwrap_or (some a) d = a

abbrev pub is_empty_list {ℓ} : {A : Type ℓ} → List A → Bool
is_empty_list [] = true
is_empty_list (x ∷ xs) = false

-- `InventoryItemSerialSource::generate`, with `count as u16`.
unfoldable pub generate : ℤ → Result Invalid InventoryItemSerialSource
generate (negsuc n) = err count_not_positive
generate (pos n) =
    if n == 0
    then err count_not_positive
    else if ltb 200 n
    then err count_too_large
    else ok (generate_serials (n % 2 ^ 16))

module _ (text : TextOps) where
  -- `map(InventoryItemSerialNumber::parse).collect::<Result<Vec<_>, _>>()?`
  unfoldable pub parse_serials : List String → Result Invalid (List String)
  parse_serials [] = ok []
  parse_serials (value ∷ values) = do
    serial ← parse_serial_number text value
    serials ← parse_serials values
    ok (serial ∷ serials)

  -- `InventoryItemSerialSource::explicit`
  unfoldable pub explicit : List String → Result Invalid InventoryItemSerialSource
  unfolding parse_serials
  explicit values = do
    guard (not (is_empty_list values)) serials_empty
    guard (not (ltb 200 (length values))) too_many_serials
    parsed ← parse_serials values
    guard (not (has_duplicate str_eq [] parsed)) duplicate_serials
    ok (explicit_serials parsed)

  -- `InventoryItemSerialSource::parse`
  unfoldable pub parse_source :
      Option (List String)
      → Option (List String)
      → Option ℤ
      → Result Invalid InventoryItemSerialSource
  unfolding explicit generate
  parse_source (some items) none none = explicit items
  parse_source none (some items) none = explicit items
  parse_source none none (some count) = generate count
  parse_source none none none = err no_serial_source
  parse_source (some items) (some numbers) count = err several_serial_sources
  parse_source (some items) none (some count) = err several_serial_sources
  parse_source none (some numbers) (some count) = err several_serial_sources

-- `InventoryItemIds::parse`
unfoldable pub parse_ids : List ℕ → Result Invalid (List ℕ)
parse_ids values = do
  guard (not (is_empty_list values)) ids_empty
  guard (length (collect_set (λ a b. a == b) [] values) == length values) duplicate_ids
  ok values

pub record MergeInventoryItems : Type 0 where
  pub target_inventory_item_id : ℕ
  pub source_inventory_item_ids : List ℕ

-- `MergeInventoryItems::parse`
unfoldable pub parse_merge : ℕ → List ℕ → Result Invalid MergeInventoryItems
unfolding parse_ids
parse_merge target values = do
  sources ← parse_ids values
  guard (not (contains (λ a b. a == b) target sources)) target_among_sources
  ok (record { target_inventory_item_id = target; source_inventory_item_ids = sources })
