-- ===== src/Borrow/Rows.antt =====
-- How the statements on borrow requests change what is found, and how many requests wait for an
-- item.
use mathlib.Core.Option as Option
use mathlib.Core.Option.{some-injective}
use lab_inventory.Common.{
  ℕ, suc, ◌≤◌, ◌≡◌, refl, ◌∙◌, ap, true, some, false, ◌&&◌, none, List, [], ◌∷◌, arith, ◌==◌,
  if◌then◌else◌, ok, Bool-cases, inl, inr,
}
use lab_inventory.Borrow.{
  BorrowRequestRow, has_key, find_request, waits_for, pending_borrow_request_exists, id_taken,
  insert_row, update_rows,
}

-- A change that leaves the laboratory and the id of a request as they are.
abbrev pub IsKeyed : (BorrowRequestRow → BorrowRequestRow) → Type 0
IsKeyed change =
    (row : BorrowRequestRow)
    → ((change row).local_laboratory_id ≡ row.local_laboratory_id)
      × ((change row).borrow_request_id ≡ row.borrow_request_id)

-- The number of requests that wait for a decision on an item.
unfoldable pub pending_count : ℕ → List BorrowRequestRow → ℕ
pending_count item [] = 0
pending_count item (row ∷ rows) =
    let rest = pending_count item rows in if waits_for item row then suc rest else rest

module _ (change : BorrowRequestRow → BorrowRequestRow) (keyed : IsKeyed change) where
  has_key-change :
      (l id : ℕ) (row : BorrowRequestRow) → has_key l id (change row) ≡ has_key l id row
  has_key-change l id row = rw ((keyed row).0, (keyed row).1)

  pub find_request-update_rows_self :
      (l id : ℕ) (rows : List BorrowRequestRow)
      → find_request l id (update_rows l id change rows)
        ≡ Option.map change (find_request l id rows)
  unfolding find_request update_rows
  find_request-update_rows_self l id [] = refl
  find_request-update_rows_self l id (row ∷ rows) = elim (Bool-cases (has_key l id row)) [
    | inl here ↦ rw (here, has_key-change l id row ∙ here)
    | inr there ↦ rw (there, there) (find_request-update_rows_self l id rows)
  ]

  pub find_request-update_rows_ne :
      (l id l' id' : ℕ) (rows : List BorrowRequestRow)
      → (l == l' && id == id') ≡ false
      → find_request l id (update_rows l' id' change rows) ≡ find_request l id rows
  unfolding find_request update_rows
  find_request-update_rows_ne l id l' id' [] h = refl
  find_request-update_rows_ne l id l' id' (row ∷ rows) h =
      ground (arith, keyed row, find_request-update_rows_ne l id l' id' rows h)

  -- Where the change leaves no request waiting, no item has more requests that wait.
  pub pending_count-update_rows-le :
      ((row : BorrowRequestRow) → (item : ℕ) → waits_for item (change row) ≡ false)
      → (item l id : ℕ) (rows : List BorrowRequestRow)
      → pending_count item (update_rows l id change rows) ≤ pending_count item rows
  unfolding pending_count update_rows
  pending_count-update_rows-le settles item l id [] = omega arith
  pending_count-update_rows-le settles item l id (row ∷ rows) =
      elim (Bool-cases (has_key l id row)) [
        | inl here ↦
            rw (here, settles row item)
              (ground (arith, pending_count-update_rows-le settles item l id rows))
        | inr there ↦ rw there (ground (arith, pending_count-update_rows-le settles item l id rows))
      ]

  -- Where a request that was found waited, one request less waits for its item.
  pub pending_count-update_rows-lt :
      ((row : BorrowRequestRow) → (item : ℕ) → waits_for item (change row) ≡ false)
      → (item l id : ℕ) (rows : List BorrowRequestRow) (found : BorrowRequestRow)
      → find_request l id rows ≡ some found
      → waits_for item found ≡ true
      → suc (pending_count item (update_rows l id change rows)) ≤ pending_count item rows
  unfolding pending_count update_rows find_request
  pending_count-update_rows-lt settles item l id [] found h waits = cc
  pending_count-update_rows-lt settles item l id (row ∷ rows) found h waits =
      elim (Bool-cases (has_key l id row)) [
        | inl here ↦
            let same = some-injective _ _ (rw here at h) in
            let waited = ap (waits_for item) same ∙ waits in
            let rest = pending_count-update_rows-le settles item l id rows in
            rw (here, settles row item, waited) (omega (arith, rest))
        | inr there ↦
            let rest =
              pending_count-update_rows-lt settles item l id rows found (rw there at h) waits in
            rw there (ground (arith, rest))
      ]

pub pending_count_none :
    (item : ℕ) (rows : List BorrowRequestRow)
    → pending_borrow_request_exists item rows ≡ false
    → pending_count item rows ≡ 0
unfolding pending_count pending_borrow_request_exists
pending_count_none item [] h = refl
pending_count_none item (row ∷ rows) h = ground (arith, pending_count_none item rows)

pub find_request_fresh :
    (l id : ℕ) (rows : List BorrowRequestRow)
    → id_taken id rows ≡ false
    → find_request l id rows ≡ none
unfolding id_taken find_request
find_request_fresh l id [] h = refl
find_request_fresh l id (row ∷ rows) h = ground (arith, find_request_fresh l id rows)

-- What an insert that is not refused has found, and what it leaves.
pub insert_row-eq-ok :
    (row : BorrowRequestRow) (rows after : List BorrowRequestRow)
    → insert_row row rows ≡ ok after
    → (id_taken row.borrow_request_id rows ≡ false)
      × (pending_borrow_request_exists row.inventory_item_id rows ≡ false)
      × (row ∷ rows ≡ after)
unfolding insert_row
insert_row-eq-ok row rows after h = ground arith

pub pending_count-insert-le :
    (row : BorrowRequestRow) (rows : List BorrowRequestRow)
    → pending_count row.inventory_item_id rows ≡ 0
    → ((item : ℕ) → pending_count item rows ≤ 1)
    → (item : ℕ) → pending_count item (row ∷ rows) ≤ 1
unfolding pending_count
pending_count-insert-le row rows free exclusive item = ground (arith, exclusive item)
