-- ===== src/Borrow.antt =====
-- Borrow requests: backend/src/routes/borrow_requests/{model,queries}.rs. A store has the inventory
-- items, the requests and the audit records; each statement of queries.rs is a function on it. A
-- request is without its timestamps and without the columns that a query joins to it.
pub mod Flows
pub mod Rows
pub mod Filing
pub mod Settling
pub mod Resolving
pub mod Lifecycle
pub mod Specification
pub mod Closing
pub mod Progress
mod Tests
use text.Mathlib.Text.{◌==◌ as str_eq}
use lab_inventory.Common.{
  ℕ, String, Bool, true, false, ◌&&◌, ◌||◌, Option, none, some, List, [], ◌∷◌, ◌==◌, if◌then◌else◌,
  Result, ok, err, map,
}
use lab_inventory.Inventory.{TextOps}
use lab_inventory.Inventory.Rows.{InventoryItemRow}
unfoldable pub use lab_inventory.Inventory.Stock.{find_item}

pub data BorrowRequestStatus : Type 0 where
  pending approved rejected cancelled : BorrowRequestStatus

-- `BorrowRequestStatus::as_str`
abbrev pub status_text : BorrowRequestStatus → String
status_text pending = "pending"
status_text approved = "approved"
status_text rejected = "rejected"
status_text cancelled = "cancelled"

abbrev pub status_of_text : String → Option BorrowRequestStatus
status_of_text s =
    if str_eq s "pending"
    then some pending
    else if str_eq s "approved"
    then some approved
    else if str_eq s "rejected"
    then some rejected
    else if str_eq s "cancelled"
    then some cancelled
    else none

-- `BorrowRequestError`, by its variants.
pub data BorrowError : Type 0 where
  validation_error forbidden not_found conflict unexpected : BorrowError

abbrev or_validation : {A : Type 0} → Option A → Result BorrowError A
or_validation none = err validation_error
or_validation (some a) = ok a

-- `BorrowRequestStatus::parse`
unfoldable pub parse_borrow_status : TextOps → String → Result BorrowError BorrowRequestStatus
parse_borrow_status text value = or_validation (status_of_text (text.trim value))

pub record BorrowRequestRow : Type 0 where
  pub borrow_request_id : ℕ
  pub local_laboratory_id : ℕ
  pub inventory_item_id : ℕ
  pub requester_user_id : Option ℕ
  pub requester_username : String
  pub requester_user_type : String
  pub requester_guest_link_id : Option ℕ
  pub request_note : Option String
  pub status : String
  pub reviewed_by_user_id : Option ℕ
  pub reviewed_by_username : Option String
  pub reviewed_by_user_type : Option String
  pub decision_note : Option String

pub record BorrowActorRow : Type 0 where
  pub username : String
  pub user_type_name : String

pub data AuditAction : Type 0 where
  audit_create audit_update : AuditAction

pub data AuditResource : Type 0 where
  borrow_request_resource inventory_item_resource : AuditResource

-- An audit record, without its details.
pub record AuditRecord : Type 0 where
  pub actor_id : ℕ
  pub action : AuditAction
  pub resource : AuditResource
  pub resource_id : ℕ

pub record Store (F : Type 0) : Type 0 where
  pub items : List (InventoryItemRow F)
  pub requests : List BorrowRequestRow
  pub audit : List AuditRecord

-- `... WHERE local_laboratory_id = $1 AND borrow_request_id = $2`
abbrev pub has_key : ℕ → ℕ → BorrowRequestRow → Bool
has_key laboratory_id id row =
    row.local_laboratory_id == laboratory_id && row.borrow_request_id == id

unfoldable pub find_request : ℕ → ℕ → List BorrowRequestRow → Option BorrowRequestRow
find_request laboratory_id id [] = none
find_request laboratory_id id (row ∷ rows) =
    let rest = find_request laboratory_id id rows in
    if has_key laboratory_id id row then some row else rest

-- `inventory_item_id = $1 AND status = 'pending'`
abbrev pub waits_for : ℕ → BorrowRequestRow → Bool
waits_for item_id row = row.inventory_item_id == item_id && str_eq row.status "pending"

unfoldable pub pending_borrow_request_exists : ℕ → List BorrowRequestRow → Bool
pending_borrow_request_exists item_id [] = false
pending_borrow_request_exists item_id (row ∷ rows) =
    waits_for item_id row || pending_borrow_request_exists item_id rows

unfoldable pub id_taken : ℕ → List BorrowRequestRow → Bool
id_taken id [] = false
id_taken id (row ∷ rows) = row.borrow_request_id == id || id_taken id rows

-- `INSERT`, refused by the primary key and by the unique index on the pending requests of an item.
unfoldable pub insert_row :
    BorrowRequestRow → List BorrowRequestRow → Result BorrowError (List BorrowRequestRow)
unfolding id_taken pending_borrow_request_exists
insert_row row rows =
    if id_taken row.borrow_request_id rows
      || pending_borrow_request_exists row.inventory_item_id rows
    then err unexpected
    else ok (row ∷ rows)

unfoldable pub update_rows :
    ℕ → ℕ → (BorrowRequestRow → BorrowRequestRow) → List BorrowRequestRow → List BorrowRequestRow
update_rows laboratory_id id change [] = []
update_rows laboratory_id id change (row ∷ rows) =
    (if has_key laboratory_id id row then change row else row)
    ∷ update_rows laboratory_id id change rows

-- What `update_borrow_request_cancelled` sets.
abbrev pub set_cancelled : BorrowRequestRow → BorrowRequestRow
set_cancelled row = record row { status = "cancelled" }

-- What `update_borrow_request_decision` sets.
abbrev pub set_decision :
    String → ℕ → BorrowActorRow → Option String → BorrowRequestRow → BorrowRequestRow
set_decision status reviewer_id reviewer note row = record row {
  status = status;
  reviewed_by_user_id = some reviewer_id;
  reviewed_by_username = some reviewer.username;
  reviewed_by_user_type = some reviewer.user_type_name;
  decision_note = note;
}

module _ {F : Type 0} where
  -- `mark_inventory_item_borrowed`
  unfoldable pub mark_borrowed : ℕ → List (InventoryItemRow F) → List (InventoryItemRow F)
  mark_borrowed id [] = []
  mark_borrowed id (item ∷ items) =
      (if item.inventory_item_id == id then record item { status = "borrowed" } else item)
      ∷ mark_borrowed id items

  abbrev joined : Option (InventoryItemRow F) → BorrowRequestRow → Option BorrowRequestRow
  joined none row = none
  joined (some item) row = some row

  abbrev with_item : List (InventoryItemRow F) → Option BorrowRequestRow → Option BorrowRequestRow
  with_item items none = none
  with_item items (some row) = joined (find_item row.inventory_item_id items) row

  -- `fetch_borrow_request_for_update`, an inner join with the items.
  unfoldable pub fetch_borrow_request : ℕ → ℕ → Store F → Option BorrowRequestRow
  unfolding find_request find_item
  fetch_borrow_request laboratory_id id store =
      with_item store.items (find_request laboratory_id id store.requests)

  abbrev pub record_audit : AuditRecord → Store F → Store F
  record_audit entry store = record store { audit = entry ∷ store.audit }
