-- ===== src/Borrow/Lifecycle.antt =====
-- The stores that the flows reach: backend/src/routes/borrow_requests/{create,cancel,resolve}.rs.
-- Each flow that succeeds is one step, for any user and any argument; so is a write elsewhere that
-- leaves the requests. The deletion of an item, a laboratory or a user, which deletes requests or
-- clears their requester, is no step.
use lab_inventory.Common.{ℕ, ◌≤◌, ◌≡◌, refl, String, false, Option, [], arith, ok}
use lab_inventory.AccessControl.Actors.{LaboratoryContext}
use lab_inventory.Inventory.{TextOps}
use lab_inventory.Inventory.Rows.{InventoryItemRow}
use lab_inventory.Borrow.{
  BorrowRequestStatus, pending, approved, rejected, cancelled, status_text, BorrowRequestRow,
  BorrowActorRow, Store, waits_for, set_cancelled, set_decision,
}
use lab_inventory.Borrow.Flows.{
  GuestLinks, create_borrow_request, cancel_borrow_request, resolve_borrow_request,
}
use lab_inventory.Borrow.Rows.{
  pending_count, pending_count-update_rows-le, pending_count_none, pending_count-insert-le,
}
use lab_inventory.Borrow.Filing.{create_borrow_request-IsFiled}
use lab_inventory.Borrow.Settling.{cancel_borrow_request-IsCancelled}
use lab_inventory.Borrow.Resolving.{resolve_borrow_request-IsResolved, ItemMoved}

-- What the flows read besides the store.
pub record Directory : Type 0 where
  pub users : ℕ → Option BorrowActorRow
  pub links : GuestLinks
  pub text : TextOps

pub data Step {F : Type 0} : Store F → Store F → Type 0 where
  filed :
      {store store' : Store F} (d : Directory) (fresh : ℕ) (context : LaboratoryContext)
      (item_id : ℕ) (note : Option String) (row : BorrowRequestRow)
      → create_borrow_request d.users d.links d.text fresh context item_id note store
        ≡ ok (row, store')
      → Step store store'
  withdrawn :
      {store store' : Store F} (d : Directory) (context : LaboratoryContext) (request_id : ℕ)
      (row : BorrowRequestRow)
      → cancel_borrow_request d.links context request_id store ≡ ok (row, store')
      → Step store store'
  settled :
      {store store' : Store F} (d : Directory) (context : LaboratoryContext) (request_id : ℕ)
      (decision : String) (note : Option String) (row : BorrowRequestRow)
      → resolve_borrow_request d.users d.text context request_id decision note store
        ≡ ok (row, store')
      → Step store store'
  elsewhere : {store store' : Store F} → store'.requests ≡ store.requests → Step store store'

pub data Reach {F : Type 0} (start : Store F) : Store F → Type 0 where
  here : Reach start start
  next : {store store' : Store F} → Reach start store → Step store store' → Reach start store'

-- No item has two requests that wait.
abbrev pub IsExclusive : {F : Type 0} → Store F → Type 0
IsExclusive store = (item : ℕ) → pending_count item store.requests ≤ 1

set_cancelled_settles :
    (row : BorrowRequestRow) (item : ℕ) → waits_for item (set_cancelled row) ≡ false
set_cancelled_settles row item = ground arith

set_decision_settles :
    {F : Type 0} (verdict : BorrowRequestStatus) (id : ℕ) (reviewer : BorrowActorRow)
    (remark : Option String) (item : InventoryItemRow F) (store store' : Store F)
    → ItemMoved verdict item store store'
    → (row : BorrowRequestRow) (item_id : ℕ)
    → waits_for item_id (set_decision (status_text verdict) id reviewer remark row) ≡ false
set_decision_settles approved id reviewer remark item store store' moved row item_id = ground arith
set_decision_settles rejected id reviewer remark item store store' moved row item_id = ground arith
set_decision_settles pending id reviewer remark item store store' moved row item_id = elim moved [ ]
set_decision_settles cancelled id reviewer remark item store store' moved row item_id =
    elim moved [ ]

module _ {F : Type 0} where
  pub Step-IsExclusive :
      {store store' : Store F} → Step store store' → IsExclusive store → IsExclusive store'
  Step-IsExclusive {store} {store'} (filed d fresh context item_id note row h) exclusive item =
      let f =
        create_borrow_request-IsFiled d.users d.links d.text fresh context item_id note store store'
          row h in
      rw f.stored (
        pending_count-insert-le row store.requests
          (rw f.for_item (pending_count_none item_id store.requests f.item_free)) exclusive item)
  Step-IsExclusive {store} {store'} (withdrawn d context id row h) exclusive item =
      let c = cancel_borrow_request-IsCancelled d.links context id store store' row h in
      let less =
        pending_count-update_rows-le set_cancelled (λ r. (refl, refl)) set_cancelled_settles item
          context.laboratory_id id store.requests in
      let before = exclusive item in rw c.stored (omega arith)
  Step-IsExclusive {store} {store'} (settled d context id decision note row h) exclusive item =
      let (verdict, asked, r) =
        resolve_borrow_request-IsResolved d.users d.text context id decision note store store' row
          h in
      let less =
        pending_count-update_rows-le
          (set_decision (status_text verdict) context.actor.user_id r.reviewer r.note)
          (λ x. (refl, refl))
          (set_decision_settles verdict context.actor.user_id r.reviewer r.note r.item store store'
            r.moved)
          item context.laboratory_id id store.requests in
      let before = exclusive item in rw r.stored (omega arith)
  Step-IsExclusive (elsewhere same) exclusive item = rw same (exclusive item)

  -- From a store without requests no flow ever leads to two requests that wait for one item.
  pub Reach-IsExclusive :
      {start store : Store F} → start.requests ≡ [] → Reach start store → IsExclusive store
  unfolding pending_count
  Reach-IsExclusive empty here item = rw empty (omega arith)
  Reach-IsExclusive empty (next reached step) item =
      Step-IsExclusive step (Reach-IsExclusive empty reached) item
