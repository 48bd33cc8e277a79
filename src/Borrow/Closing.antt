-- ===== src/Borrow/Closing.antt =====
-- What closing a request that waits leaves: `resolve_borrow_request` and `cancel_borrow_request` of
-- backend/src/routes/borrow_requests.
use lab_inventory.Common.{
  ℕ, ◌≡◌, ◌≢◌, ◌⊎◌, inl, inr, ◌≤◌, arith, List, false, refl, String, Bool, true, ◌||◌, Option, some,
  ==_refl, ◌∷◌, ok,
}
use lab_inventory.AccessControl.{Actor, lab_is}
use lab_inventory.AccessControl.Actors.{is_guest, is_lab_admin, is_regular_user, LaboratoryContext}
use lab_inventory.Inventory.{TextOps, normalize_optional_text}
use lab_inventory.Inventory.Rows.{InventoryItemRow}
use lab_inventory.Borrow.{
  parse_borrow_status, BorrowRequestRow, BorrowActorRow, Store, find_request, find_item,
  fetch_borrow_request, update_rows, set_decision, set_cancelled, waits_for, audit_update,
  borrow_request_resource,
}
use lab_inventory.Borrow.Flows.{
  validate_resolver_actor, write_decision, resolve_borrow_request, validate_request_actor,
  cancellable_by, link_matches, cancel_borrow_request_in_transaction, cancel_borrow_request,
  GuestLinks,
}
use lab_inventory.Borrow.Rows.{
  find_request-update_rows_self, find_request-update_rows_ne, pending_count-update_rows-lt,
  pending_count, IsKeyed,
}

or_true : (b : Bool) → (b || true) ≡ true
or_true true = refl
or_true false = refl

cancellable_by_user :
    (row : BorrowRequestRow) (actor : Actor) (link : Option ℕ)
    → row.requester_user_id ≡ some actor.user_id
    → cancellable_by row actor link ≡ true
unfolding cancellable_by
cancellable_by_user row actor link made =
    rw (made, ==_refl actor.user_id, or_true (link_matches link row.requester_guest_link_id))

pub others_kept :
    (change : BorrowRequestRow → BorrowRequestRow)
    → IsKeyed change
    → (l id l' id' : ℕ) (rows : List BorrowRequestRow) → (l' ≢ l) ⊎ (id' ≢ id)
    → find_request l' id' (update_rows l id change rows) ≡ find_request l' id' rows
others_kept change keyed l id l' id' rows (inl ne) =
    find_request-update_rows_ne change keyed l' id' l id rows (ground (arith, ne))
others_kept change keyed l id l' id' rows (inr ne) =
    find_request-update_rows_ne change keyed l' id' l id rows (ground (arith, ne))

pub freed :
    (change : BorrowRequestRow → BorrowRequestRow)
    → IsKeyed change
    → ((row : BorrowRequestRow) → (item : ℕ) → waits_for item (change row) ≡ false)
    → (l id : ℕ) (rows : List BorrowRequestRow) (row : BorrowRequestRow)
    → pending_count row.inventory_item_id rows ≤ 1
    → find_request l id rows ≡ some row
    → row.status ≡ "pending"
    → pending_count row.inventory_item_id (update_rows l id change rows) ≡ 0
freed change keyed settles l id rows row exclusive found waits =
    let item = row.inventory_item_id in
    let waited : waits_for item row ≡ true = rw (waits, ==_refl item) refl in
    omega (
      arith,
      exclusive,
      pending_count-update_rows-lt change keyed settles item l id rows row found waited,
    )

module _ {F : Type 0} where
  -- A change that keeps the item of a request leaves the request to be read.
  fetch-update_rows :
      (l id : ℕ) (store : Store F) (change : BorrowRequestRow → BorrowRequestRow)
      (row : BorrowRequestRow) (item : InventoryItemRow F)
      → IsKeyed change
      → (change row).inventory_item_id ≡ row.inventory_item_id
      → find_request l id store.requests ≡ some row
      → find_item row.inventory_item_id store.items ≡ some item
      → fetch_borrow_request l id
          (record store { requests = update_rows l id change store.requests })
        ≡ some (change row)
  unfolding fetch_borrow_request
  fetch-update_rows l id store change row item keyed same found known =
      rw (find_request-update_rows_self change keyed l id store.requests, found, same, known)

  fetch_found :
      (l id : ℕ) (store : Store F) (row : BorrowRequestRow) (item : InventoryItemRow F)
      → find_request l id store.requests ≡ some row
      → find_item row.inventory_item_id store.items ≡ some item
      → fetch_borrow_request l id store ≡ some row
  unfolding fetch_borrow_request
  fetch_found l id store row item found known = rw (found, known)

  pub reject_returns :
      (users : ℕ → Option BorrowActorRow) (text : TextOps) (context : LaboratoryContext) (id : ℕ)
      (decision : String) (remark : Option String) (store : Store F) (row : BorrowRequestRow)
      (item : InventoryItemRow F) (reviewer : BorrowActorRow)
      → (is_lab_admin context.actor || is_regular_user context.actor) ≡ true
      → lab_is context.actor.laboratory_id context.laboratory_id ≡ true
      → users context.actor.user_id ≡ some reviewer
      → text.trim decision ≡ "rejected"
      → find_request context.laboratory_id id store.requests ≡ some row
      → find_item row.inventory_item_id store.items ≡ some item
      → row.status ≡ "pending"
      → (let change =
            set_decision "rejected" context.actor.user_id reviewer
              (normalize_optional_text text remark) in
          resolve_borrow_request users text context id decision remark store
          ≡ ok (
            change row,
            record store {
              requests = update_rows context.laboratory_id id change store.requests;
              audit =
                  record {
                    actor_id = context.actor.user_id;
                    action = audit_update;
                    resource = borrow_request_resource;
                    resource_id = row.borrow_request_id;
                  }
                  ∷ store.audit;
            },
          ))
  unfolding resolve_borrow_request validate_resolver_actor write_decision parse_borrow_status
  reject_returns users text context id decision remark store row item reviewer staff of_lab exists
        asked found known waits =
      rw (
        staff,
        of_lab,
        asked,
        fetch_found context.laboratory_id id store row item found known,
        waits,
        known,
        exists,
        fetch-update_rows context.laboratory_id id store
            (set_decision "rejected" context.actor.user_id reviewer
              (normalize_optional_text text remark))
            row item (λ r. (refl, refl)) refl found known,
      )

  pub cancel_returns :
      (links : GuestLinks) (context : LaboratoryContext) (id : ℕ) (store : Store F)
      (row : BorrowRequestRow) (item : InventoryItemRow F)
      → is_guest context.actor ≡ true
      → lab_is context.actor.laboratory_id context.laboratory_id ≡ true
      → find_request context.laboratory_id id store.requests ≡ some row
      → find_item row.inventory_item_id store.items ≡ some item
      → row.requester_user_id ≡ some context.actor.user_id
      → row.status ≡ "pending"
      → cancel_borrow_request links context id store
        ≡ ok (
          set_cancelled row,
          record store {
            requests = update_rows context.laboratory_id id set_cancelled store.requests;
            audit =
                record {
                  actor_id = context.actor.user_id;
                  action = audit_update;
                  resource = borrow_request_resource;
                  resource_id = row.borrow_request_id;
                }
                ∷ store.audit;
          },
        )
  unfolding cancel_borrow_request cancel_borrow_request_in_transaction validate_request_actor
  cancel_returns links context id store row item guest of_lab found known made waits = rw (
    guest,
    of_lab,
    fetch_found context.laboratory_id id store row item found known,
    cancellable_by_user row context.actor (links context.actor.user_id context.laboratory_id) made,
    waits,
    fetch-update_rows context.laboratory_id id store set_cancelled row item (λ r. (refl, refl)) refl
        found known,
  )

  -- The request is closed with a status and is found so in the new store. The other requests and the
  -- items are as they were, and no request waits for the item any more.
  pub record IsClosed (l id : ℕ) (name : String) (row : BorrowRequestRow) (store after : Store F)
      (closed : BorrowRequestRow) : Type 0 where
    pub found : find_request l id after.requests ≡ some closed
    pub status : closed.status ≡ name
    pub same_item : closed.inventory_item_id ≡ row.inventory_item_id
    pub same_requester : closed.requester_user_id ≡ row.requester_user_id
    pub items_kept : after.items ≡ store.items
    pub others :
        (l' id' : ℕ)
        → (l' ≢ l) ⊎ (id' ≢ id)
        → find_request l' id' after.requests ≡ find_request l' id' store.requests
    pub item_free : pending_count row.inventory_item_id after.requests ≡ 0
