-- ===== src/Borrow/Progress.antt =====
-- The closing of a request that waits: backend/src/routes/borrow_requests/service.rs.
use mathlib.Core.Option as Option
use lab_inventory.Common.{ℕ, ◌≡◌, ◌≤◌, ap, ◌∙◌, arith, refl, String, true, ◌||◌, Option, some, ok}
use lab_inventory.AccessControl.{lab_is}
use lab_inventory.AccessControl.Actors.{is_guest, is_lab_admin, is_regular_user, LaboratoryContext}
use lab_inventory.Inventory.{TextOps, normalize_optional_text}
use lab_inventory.Inventory.Rows.{InventoryItemRow}
use lab_inventory.Borrow.{
  BorrowRequestRow, BorrowActorRow, Store, find_request, find_item, set_decision, set_cancelled,
}
use lab_inventory.Borrow.Flows.{resolve_borrow_request, cancel_borrow_request, GuestLinks}
use lab_inventory.Borrow.Rows.{find_request-update_rows_self, pending_count}
use lab_inventory.Borrow.Closing.{reject_returns, cancel_returns, freed, others_kept, IsClosed}

module _ {F : Type 0} where
  -- A request that waits is rejected when the staff of its laboratory ask for it: the call succeeds, the
  -- request that is stored then is rejected, with the reviewer, the other requests and the items are as
  -- they were, and no request waits for the item any more. At most one request waited for it.
  pub resolve_borrow_request_rejects :
      (users : ℕ → Option BorrowActorRow) (text : TextOps) (context : LaboratoryContext) (id : ℕ)
      (decision : String) (remark : Option String) (store : Store F) (row : BorrowRequestRow)
      (item : InventoryItemRow F) (reviewer : BorrowActorRow)
      → (is_lab_admin context.actor || is_regular_user context.actor) ≡ true
      → lab_is context.actor.laboratory_id context.laboratory_id ≡ true
      → users context.actor.user_id ≡ some reviewer
      → text.trim decision ≡ "rejected"
      → find_request context.laboratory_id id store.requests ≡ some row
      → find_item row.inventory_item_id store.items ≡ some item
      → row.status ≡ "pending"
      → pending_count row.inventory_item_id store.requests ≤ 1
      → (closed : BorrowRequestRow) × (after : Store F) × (resolve_borrow_request users text context
            id decision remark store
          ≡ ok (closed, after))
        × IsClosed context.laboratory_id id "rejected" row store after closed
        × (closed.reviewed_by_user_id ≡ some context.actor.user_id)
  resolve_borrow_request_rejects users text context id decision remark store row item reviewer staff
        of_lab exists asked found known waits exclusive =
      let change =
        set_decision "rejected" context.actor.user_id reviewer
          (normalize_optional_text text remark) in
      let l = context.laboratory_id in
      (
        _,
        _,
        reject_returns users text context id decision remark store row item reviewer staff of_lab
            exists asked found known waits,
        record {
          found =
              find_request-update_rows_self change (λ r. (refl, refl)) l id store.requests
              ∙ ap (Option.map change) found;
          status = refl;
          same_item = refl;
          same_requester = refl;
          items_kept = refl;
          others =
              λ l' id' ne. others_kept change (λ r. (refl, refl)) l id l' id' store.requests ne;
          item_free =
              freed change (λ r. (refl, refl)) (λ r i. ground arith) l id store.requests row
                exclusive found waits;
        },
        refl,
      )

  -- A request that waits is cancelled when the guest who made it asks for it: the call succeeds, the
  -- request that is stored then is cancelled, the other requests and the items are as they were, and no
  -- request waits for the item any more. At most one request waited for it.
  pub cancel_borrow_request_cancels :
      (links : GuestLinks) (context : LaboratoryContext) (id : ℕ) (store : Store F)
      (row : BorrowRequestRow) (item : InventoryItemRow F)
      → is_guest context.actor ≡ true
      → lab_is context.actor.laboratory_id context.laboratory_id ≡ true
      → find_request context.laboratory_id id store.requests ≡ some row
      → find_item row.inventory_item_id store.items ≡ some item
      → row.requester_user_id ≡ some context.actor.user_id
      → row.status ≡ "pending"
      → pending_count row.inventory_item_id store.requests ≤ 1
      → (closed : BorrowRequestRow) × (after : Store F) × (cancel_borrow_request links context id
            store
          ≡ ok (closed, after))
        × IsClosed context.laboratory_id id "cancelled" row store after closed
  cancel_borrow_request_cancels links context id store row item guest of_lab found known made waits
        exclusive =
      let l = context.laboratory_id in
      (
        _,
        _,
        cancel_returns links context id store row item guest of_lab found known made waits,
        record {
          found =
              find_request-update_rows_self set_cancelled (λ r. (refl, refl)) l id store.requests
              ∙ ap (Option.map set_cancelled) found;
          status = refl;
          same_item = refl;
          same_requester = refl;
          items_kept = refl;
          others = λ l' id' ne.
              others_kept set_cancelled (λ r. (refl, refl)) l id l' id' store.requests ne;
          item_free =
              freed set_cancelled (λ r. (refl, refl)) (λ r i. ground arith) l id store.requests row
                exclusive found waits;
        },
      )
