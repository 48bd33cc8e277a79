-- ===== src/Inventory/Serials.antt =====
-- Serial numbers and ids of a command: as many as allowed, and none of them twice.
use text.Mathlib.Text.{◌==◌ as str_eq}
use text.Mathlib.TextEquality.{eq_iff}
use mathlib.Core.Path.{subst}
use lab_inventory.Common.{
  ℕ, ◌≤◌, ◌≡◌, refl, ◌↔◌, String, Bool, true, false, not, Option, none, some, List, [], ◌∷◌, arith,
  ltb, ◌==◌, ==_iff, if◌then◌else◌, ok, err, >>=-eq-ok, guard-eq-ok, ok-injective, sym, ap, suc,
  length, All-≢_symm, has_duplicate, collect_set, contains, AllDistinct, has_duplicate-eq-false,
  contains-eq-false, length-collect_set-eq, nothing_seen,
}
use lab_inventory.Inventory.{TextOps, parse_serial_number}
use lab_inventory.Inventory.Sources.{
  ℤ, pos, negsuc, InventoryItemSerialSource, explicit_serials, generate_serials, generate,
  parse_serials, explicit, parse_source, is_empty_list, parse_ids, parse_merge, MergeInventoryItems,
}
use lab_inventory.Inventory.Rows.{InventoryItemRow, not_found, validate_requested_ids}

-- Between 1 and 200 items, with distinct serial numbers where these are given.
abbrev pub IsSource : InventoryItemSerialSource → Type 0
IsSource (explicit_serials serials) =
    (1 ≤ length serials) × (length serials ≤ 200) × AllDistinct serials
IsSource (generate_serials count) = (1 ≤ count) × (count ≤ 200)

not-eq-true : (b : Bool) → not b ≡ true → b ≡ false
not-eq-true true h = cc
not-eq-true false h = refl

length_pos : {A : Type 0} (xs : List A) → not (is_empty_list xs) ≡ true → 1 ≤ length xs
length_pos [] h = cc
length_pos (x ∷ xs) h = omega arith

not-is_empty_list : {A : Type 0} (xs : List A) → 1 ≤ length xs → not (is_empty_list xs) ≡ true
not-is_empty_list [] h = absurd (omega arith)
not-is_empty_list (x ∷ xs) h = refl

generate-IsSource :
    (count : ℤ) (source : InventoryItemSerialSource) → generate count ≡ ok source → IsSource source
unfolding generate
generate-IsSource (negsuc n) source h = cc
generate-IsSource (pos n) (explicit_serials serials) h = ground arith
generate-IsSource (pos n) (generate_serials count) h = ground arith

module _ (text : TextOps) where
  length-parse_serials :
      (values serials : List String)
      → parse_serials text values ≡ ok serials
      → length serials ≡ length values
  unfolding parse_serials
  length-parse_serials [] serials h = ground arith
  length-parse_serials (value ∷ values) serials h =
      let (serial, first, h1) = >>=-eq-ok (parse_serial_number text value) _ h in
      let (more, rest, h2) = >>=-eq-ok (parse_serials text values) _ h1 in
      rw (sym (ok-injective h2)) (ap suc (length-parse_serials values more rest))

  explicit-IsSource :
      (values : List String) (source : InventoryItemSerialSource)
      → explicit text values ≡ ok source
      → IsSource source
  unfolding explicit
  explicit-IsSource values source h =
      let (nonempty, h1) = guard-eq-ok (not (is_empty_list values)) _ _ h in
      let (bounded, h2) = guard-eq-ok (not (ltb 200 (length values))) _ _ h1 in
      let (serials, parsed, h3) = >>=-eq-ok (parse_serials text values) _ h2 in
      let (fresh, h4) = guard-eq-ok (not (has_duplicate str_eq [] serials)) _ _ h3 in
      let same_length = length-parse_serials values serials parsed in
      let distinct = (has_duplicate-eq-false str_eq eq_iff [] serials).0 (not-eq-true _ fresh) in
      subst IsSource (ok-injective h4)
        ((omega (arith, length_pos values nonempty), ground arith, distinct.0))

  -- The source of serial numbers that a creation command accepts asks for between 1 and 200 items,
  -- and serial numbers that it lists are distinct.
  pub parse_source-IsSource :
      (items numbers : Option (List String)) (count : Option ℤ) (source : InventoryItemSerialSource)
      → parse_source text items numbers count ≡ ok source
      → IsSource source
  unfolding parse_source
  parse_source-IsSource (some items) none none source h = explicit-IsSource items source h
  parse_source-IsSource none (some items) none source h = explicit-IsSource items source h
  parse_source-IsSource none none (some count) source h = generate-IsSource count source h
  parse_source-IsSource none none none source h = cc
  parse_source-IsSource (some items) (some numbers) count source h = cc
  parse_source-IsSource (some items) none (some count) source h = cc
  parse_source-IsSource none (some numbers) (some count) source h = cc

-- A list of ids is accepted, as it is, exactly when it has an id and none of them twice.
pub parse_ids_iff :
    (values ids : List ℕ)
    → (parse_ids values ≡ ok ids) ↔ ((ids ≡ values) × (1 ≤ length values) × AllDistinct values)
unfolding parse_ids
parse_ids_iff values ids = (
  (λ h.
      let (nonempty, h1) = guard-eq-ok (not (is_empty_list values)) _ _ h in
      let (counted, h2) =
        guard-eq-ok (length (collect_set (λ a b. a == b) [] values) == length values) _ _ h1 in
      (
        sym (ok-injective h2),
        length_pos values nonempty,
        (length-collect_set-eq (λ a b. a == b) ==_iff values).0 ((==_iff _ _).0 counted),
      )),
  λ h.
      let counted = (length-collect_set-eq (λ a b. a == b) ==_iff values).1 h.2 in
      rw
        (
          not-is_empty_list values h.1,
          (==_iff (length (collect_set (λ a b. a == b) [] values)) (length values)).1 counted,
        )
        (ap ok (sym h.0)),
)

-- The ids of a merge command, the target's among them, are distinct, and there is a source.
pub parse_merge-AllDistinct :
    (target : ℕ) (values : List ℕ) (command : MergeInventoryItems)
    → parse_merge target values ≡ ok command
    → AllDistinct (command.target_inventory_item_id ∷ command.source_inventory_item_ids)
      × (1 ≤ length command.source_inventory_item_ids)
unfolding parse_merge
parse_merge-AllDistinct target values command h =
    let (sources, parsed, h1) = >>=-eq-ok (parse_ids values) _ h in
    let (apart, h2) = guard-eq-ok (not (contains (λ a b. a == b) target sources)) _ _ h1 in
    let (same, nonempty, distinct) = (parse_ids_iff values sources).0 parsed in
    let fresh = (contains-eq-false (λ a b. a == b) ==_iff target sources).0 (not-eq-true _ apart) in
    subst
      (λ (c : MergeInventoryItems).
        AllDistinct (c.target_inventory_item_id ∷ c.source_inventory_item_ids)
        × (1 ≤ length c.source_inventory_item_ids))
      (ok-injective h2)
      (
        (All-≢_symm target sources fresh, subst AllDistinct (sym same) distinct),
        subst (λ xs. 1 ≤ length xs) (sym same) nonempty,
      )

-- On the ids of a parsed merge command, the check of the requested ids comes down to the number of
-- rows found: it never reports an empty list or a repeated id.
pub validate_requested_ids-parse_merge :
    {F : Type 0} (target : ℕ) (values : List ℕ) (command : MergeInventoryItems)
    (rows : List (InventoryItemRow F))
    → parse_merge target values ≡ ok command
    → let ids = command.target_inventory_item_id ∷ command.source_inventory_item_ids in
      validate_requested_ids ids rows ≡ (if length rows == length ids then ok tt else err not_found)
unfolding validate_requested_ids
validate_requested_ids-parse_merge target values command rows h =
    let ids = command.target_inventory_item_id ∷ command.source_inventory_item_ids in
    let distinct = (parse_merge-AllDistinct target values command h).0 in
    let counted = (length-collect_set-eq (λ a b. a == b) ==_iff ids).1 distinct in
    rw ((==_iff (length (collect_set (λ a b. a == b) [] ids)) (length ids)).1 counted) refl

-- A list of 1 to 200 serial numbers, each of them valid and none of them twice, is accepted with
-- every number kept.
pub parse_source_complete :
    (text : TextOps) (values serials : List String)
    → 1 ≤ length values
    → length values ≤ 200
    → parse_serials text values ≡ ok serials
    → AllDistinct serials
    → parse_source text (some values) none none ≡ ok (explicit_serials serials)
unfolding parse_source explicit
parse_source_complete text values serials some_value bounded parsed distinct =
    let in_bounds : ltb 200 (length values) ≡ false = ground arith in
    let fresh =
      (has_duplicate-eq-false str_eq eq_iff [] serials).1 (distinct, nothing_seen serials) in
    rw (not-is_empty_list values some_value, in_bounds, parsed, fresh) refl
