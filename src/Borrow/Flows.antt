-- ===== src/Borrow/Flows.antt =====
-- backend/src/routes/borrow_requests/{service,create,cancel,resolve}.rs. A flow is one transaction:
-- an error leaves the store as it was. The users, their guest links, the new id and the operations
-- on texts are arguments. A statement that fails for another reason than a constraint, such as a lost
-- connection, is not among the errors.
use text.Mathlib.Text.{◌==◌ as str_eq}
use lab_inventory.Common.{
  ℕ, String, Bool, true, false, not, ◌&&◌, ◌||◌, Option, none, some, ◌==◌, Result, ok, err, ◌>>=◌,
  ◌>>◌, guard, ok_or,
}
use lab_inventory.AccessControl.{Actor, lab_is}
use lab_inventory.AccessControl.Actors.{is_guest, is_lab_admin, is_regular_user, LaboratoryContext}
use lab_inventory.Inventory.{TextOps, normalize_optional_text}
use lab_inventory.Inventory.Rows.{id_is}
use lab_inventory.Borrow.{
  BorrowRequestStatus, pending, approved, rejected, cancelled, status_text, parse_borrow_status,
  BorrowError, validation_error, forbidden, not_found, conflict, BorrowRequestRow, BorrowActorRow,
  audit_create, audit_update, borrow_request_resource, inventory_item_resource, Store, find_item,
  fetch_borrow_request, pending_borrow_request_exists, insert_row, update_rows, set_cancelled,
  set_decision, mark_borrowed, record_audit,
}

-- `validate_request_actor`
unfoldable pub validate_request_actor : Actor → ℕ → Result BorrowError (Unit {0})
validate_request_actor actor laboratory_id =
    guard (is_guest actor && lab_is actor.laboratory_id laboratory_id) forbidden

-- `validate_resolver_actor`
unfoldable pub validate_resolver_actor : Actor → ℕ → Result BorrowError (Unit {0})
validate_resolver_actor actor laboratory_id =
    guard
      ((is_lab_admin actor || is_regular_user actor) && lab_is actor.laboratory_id laboratory_id)
      forbidden

abbrev pub link_matches : Option ℕ → Option ℕ → Bool
link_matches none link = false
link_matches (some id) link = id_is link (some id)

-- `cancellable_by`
unfoldable pub cancellable_by : BorrowRequestRow → Actor → Option ℕ → Bool
cancellable_by row actor guest_link_id =
    link_matches guest_link_id row.requester_guest_link_id
    || id_is row.requester_user_id (some actor.user_id)

-- The decision of a reviewer: `parse`, and neither pending nor cancelled.
abbrev pub decided : BorrowRequestStatus → Result BorrowError BorrowRequestStatus
decided pending = err validation_error
decided cancelled = err validation_error
decided approved = ok approved
decided rejected = ok rejected

abbrev pub is_approval : BorrowRequestStatus → Bool
is_approval approved = true
is_approval _ = false

-- The row that `insert_borrow_request` stores.
abbrev pub new_request :
    ℕ → ℕ → ℕ → ℕ → BorrowActorRow → Option ℕ → Option String → BorrowRequestRow
new_request id laboratory_id item_id requester_id requester guest_link_id note = record {
  borrow_request_id = id;
  local_laboratory_id = laboratory_id;
  inventory_item_id = item_id;
  requester_user_id = some requester_id;
  requester_username = requester.username;
  requester_user_type = requester.user_type_name;
  requester_guest_link_id = guest_link_id;
  request_note = note;
  status = "pending";
  reviewed_by_user_id = none;
  reviewed_by_username = none;
  reviewed_by_user_type = none;
  decision_note = none;
}

module _ {F : Type 0} where
  -- The item moves only with an approval, whose audit record stands before that of the request.
  abbrev pub approve_item : BorrowRequestStatus → Actor → ℕ → Store F → Store F
  approve_item approved actor item_id store =
      record_audit
        (record {
          actor_id = actor.user_id;
          action = audit_update;
          resource = inventory_item_resource;
          resource_id = item_id;
        })
        (record store { items = mark_borrowed item_id store.items })
  approve_item _ actor item_id store = store

  -- `cancel_borrow_request_in_transaction`
  unfoldable pub cancel_borrow_request_in_transaction :
      Actor → ℕ → ℕ → Option ℕ → Store F → Result BorrowError (BorrowRequestRow × Store F)
  unfolding validate_request_actor fetch_borrow_request cancellable_by update_rows
  cancel_borrow_request_in_transaction actor laboratory_id request_id guest_link_id store = do
    validate_request_actor actor laboratory_id
    row ← ok_or (fetch_borrow_request laboratory_id request_id store) not_found
    guard (cancellable_by row actor guest_link_id) not_found
    guard (str_eq row.status (status_text pending)) conflict
    let stored = record store {
      requests = update_rows laboratory_id request_id set_cancelled store.requests;
    }
    updated ← ok_or (fetch_borrow_request laboratory_id request_id stored) not_found
    ok (
      updated,
      record_audit
          (record {
            actor_id = actor.user_id;
            action = audit_update;
            resource = borrow_request_resource;
            resource_id = updated.borrow_request_id;
          })
          stored,
    )

  -- The writes of `resolve_borrow_request`, once it has decided.
  unfoldable pub write_decision :
      Actor
      → ℕ
      → ℕ
      → BorrowRequestStatus
      → BorrowActorRow
      → Option String
      → ℕ
      → Store F
      → Result BorrowError (BorrowRequestRow × Store F)
  unfolding fetch_borrow_request update_rows mark_borrowed
  write_decision actor laboratory_id request_id verdict reviewer note item_id store = do
    let moved = approve_item verdict actor item_id store
    let stored = record moved {
      requests =
          update_rows laboratory_id request_id
            (set_decision (status_text verdict) actor.user_id reviewer note) moved.requests;
    }
    updated ← ok_or (fetch_borrow_request laboratory_id request_id stored) not_found
    ok (
      updated,
      record_audit
          (record {
            actor_id = actor.user_id;
            action = audit_update;
            resource = borrow_request_resource;
            resource_id = updated.borrow_request_id;
          })
          stored,
    )

module _ {F : Type 0} (users : ℕ → Option BorrowActorRow) where
  -- `create_borrow_request_in_transaction`
  unfoldable pub create_borrow_request_in_transaction :
      ℕ
      → Actor
      → ℕ
      → ℕ
      → Option ℕ
      → Option String
      → Store F
      → Result BorrowError (BorrowRequestRow × Store F)
  unfolding find_item validate_request_actor pending_borrow_request_exists insert_row
      fetch_borrow_request
  create_borrow_request_in_transaction fresh actor laboratory_id item_id guest_link_id note store =
      do
        item ← ok_or (find_item item_id store.items) not_found
        guard (item.laboratory_id == laboratory_id) not_found
        validate_request_actor actor laboratory_id
        guard (str_eq item.status "available") conflict
        guard (not (pending_borrow_request_exists item.inventory_item_id store.requests)) conflict
        requester ← ok_or (users actor.user_id) forbidden
        requests ←
            insert_row
              (new_request fresh laboratory_id item.inventory_item_id actor.user_id requester
                guest_link_id note)
              store.requests
        let stored = record store { requests = requests }
        row ← ok_or (fetch_borrow_request laboratory_id fresh stored) not_found
        ok (
          row,
          record_audit
              (record {
                actor_id = actor.user_id;
                action = audit_create;
                resource = borrow_request_resource;
                resource_id = row.borrow_request_id;
              })
              stored,
        )

  -- `resolve_borrow_request`
  unfoldable pub resolve_borrow_request :
      TextOps
      → LaboratoryContext
      → ℕ
      → String
      → Option String
      → Store F
      → Result BorrowError (BorrowRequestRow × Store F)
  unfolding validate_resolver_actor parse_borrow_status fetch_borrow_request find_item
      write_decision normalize_optional_text
  resolve_borrow_request text context request_id decision note store = do
    validate_resolver_actor context.actor context.laboratory_id
    parsed ← parse_borrow_status text decision
    verdict ← decided parsed
    request ← ok_or (fetch_borrow_request context.laboratory_id request_id store) not_found
    guard (str_eq request.status (status_text pending)) conflict
    item ← ok_or (find_item request.inventory_item_id store.items) not_found
    guard (not (is_approval verdict && not (str_eq item.status "available"))) conflict
    reviewer ← ok_or (users context.actor.user_id) forbidden
    write_decision context.actor context.laboratory_id request_id verdict reviewer
        (normalize_optional_text text note) item.inventory_item_id store

-- The link of a guest in a laboratory, `fetch_guest_link_id`.
abbrev pub GuestLinks : Type 0
GuestLinks = ℕ → ℕ → Option ℕ

module _ {F : Type 0} (users : ℕ → Option BorrowActorRow) (links : GuestLinks) where
  -- `create_borrow_request`
  unfoldable pub create_borrow_request :
      TextOps
      → ℕ
      → LaboratoryContext
      → ℕ
      → Option String
      → Store F
      → Result BorrowError (BorrowRequestRow × Store F)
  unfolding create_borrow_request_in_transaction normalize_optional_text
  create_borrow_request text fresh context item_id note store =
      create_borrow_request_in_transaction users fresh context.actor context.laboratory_id item_id
        (links context.actor.user_id context.laboratory_id) (normalize_optional_text text note)
        store

module _ {F : Type 0} (links : GuestLinks) where
  -- `cancel_borrow_request`
  unfoldable pub cancel_borrow_request :
      LaboratoryContext → ℕ → Store F → Result BorrowError (BorrowRequestRow × Store F)
  unfolding cancel_borrow_request_in_transaction
  cancel_borrow_request context request_id store =
      cancel_borrow_request_in_transaction context.actor context.laboratory_id request_id
        (links context.actor.user_id context.laboratory_id) store
