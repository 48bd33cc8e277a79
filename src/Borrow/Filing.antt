-- ===== src/Borrow/Filing.antt =====
-- What `create_borrow_request` has checked when it succeeds, and what it has changed.
use text.Mathlib.Text.{◌==◌ as str_eq}
use text.Mathlib.TextEquality.{eq_iff}
use mathlib.Core.Path.{subst}
use lab_inventory.Common.{
  ℕ, ◌≡◌, refl, sym, ap, ◌∙◌, String, true, false, not, Option, some, List, ◌∷◌, arith, ◌==◌,
  ==_iff, ==_refl, ok, ok_or, >>=-eq-ok, guard-eq-ok, ok-injective, ok_or-eq-ok, passed,
  not-eq-true, and-eq-true,
}
use lab_inventory.AccessControl.{Actor, lab_is}
use lab_inventory.AccessControl.Actors.{is_guest, LaboratoryContext}
use lab_inventory.Inventory.{TextOps, normalize_optional_text}
use lab_inventory.Inventory.Rows.{InventoryItemRow}
use lab_inventory.Inventory.Conservation.{find_item-inventory_item_id}
use lab_inventory.Borrow.{
  forbidden, not_found, BorrowRequestRow, BorrowActorRow, Store, find_request, has_key, find_item,
  fetch_borrow_request, pending_borrow_request_exists, id_taken, insert_row,
}
use lab_inventory.Borrow.Flows.{
  validate_request_actor, new_request, create_borrow_request_in_transaction, GuestLinks,
  create_borrow_request,
}
use lab_inventory.Borrow.Rows.{insert_row-eq-ok}

module _ {F : Type 0} where
  pub fetch_borrow_request-eq-some :
      (l id : ℕ) (store : Store F) (row : BorrowRequestRow)
      → fetch_borrow_request l id store ≡ some row
      → find_request l id store.requests ≡ some row
  unfolding fetch_borrow_request
  fetch_borrow_request-eq-some l id store row h = ground arith

  fetch_borrow_request_first :
      (l id : ℕ) (store : Store F) (made row : BorrowRequestRow) (rows : List BorrowRequestRow)
      → has_key l id made ≡ true
      → fetch_borrow_request l id (record store { requests = made ∷ rows }) ≡ some row
      → made ≡ row
  unfolding fetch_borrow_request find_request
  fetch_borrow_request_first l id store made row rows keyed h = ground arith

  -- A request is filed for an available item of the laboratory that no other request waits for.
  pub record IsFiled (actor : Actor) (l item_id : ℕ) (store store' : Store F)
      (row : BorrowRequestRow) : Type 0 where
    pub by_guest : is_guest actor ≡ true
    pub of_laboratory : lab_is actor.laboratory_id l ≡ true
    pub item : InventoryItemRow F
    pub item_found : find_item item_id store.items ≡ some item
    pub item_here : item.laboratory_id ≡ l
    pub item_available : item.status ≡ "available"
    pub item_free : pending_borrow_request_exists item_id store.requests ≡ false
    pub id_new : id_taken row.borrow_request_id store.requests ≡ false
    pub waits : row.status ≡ "pending"
    pub for_item : row.inventory_item_id ≡ item_id
    pub by_actor : row.requester_user_id ≡ some actor.user_id
    pub here : row.local_laboratory_id ≡ l
    pub stored : store'.requests ≡ row ∷ store.requests
    pub items_kept : store'.items ≡ store.items

module _ {F : Type 0} (users : ℕ → Option BorrowActorRow) (links : GuestLinks)
    (text : TextOps) where
  -- A request that is filed comes from a guest of the laboratory, for an available item of it that no
  -- request waits for. It is added under a new id, pending, with the guest as its user; the items stay.
  pub create_borrow_request-IsFiled :
      (fresh : ℕ) (context : LaboratoryContext) (item_id : ℕ) (note : Option String)
      (store store' : Store F) (row : BorrowRequestRow)
      → create_borrow_request users links text fresh context item_id note store ≡ ok (row, store')
      → IsFiled context.actor context.laboratory_id item_id store store' row
  unfolding create_borrow_request create_borrow_request_in_transaction validate_request_actor
  create_borrow_request-IsFiled fresh context item_id note store store' row h =
      let l = context.laboratory_id in
      let (item, found, h1) = >>=-eq-ok (ok_or (find_item item_id store.items) not_found) _ h in
      let for_that =
        find_item-inventory_item_id item_id store.items item (ok_or-eq-ok _ _ _ found) in
      let (item_here, h2) = guard-eq-ok (item.laboratory_id == l) _ _ h1 in
      let (u, guest, h3) = >>=-eq-ok (validate_request_actor context.actor l) _ h2 in
      let guest_of = and-eq-true _ _ (passed _ forbidden guest) in
      let (available, h4) = guard-eq-ok (str_eq item.status "available") _ _ h3 in
      let (free, h5) =
        guard-eq-ok (not (pending_borrow_request_exists item.inventory_item_id store.requests)) _ _
          h4 in
      let (requester, known, h6) = >>=-eq-ok (ok_or (users context.actor.user_id) forbidden) _ h5 in
      let made =
        new_request fresh l item.inventory_item_id context.actor.user_id requester
          (links context.actor.user_id l) (normalize_optional_text text note) in
      let (requests, inserted, h7) = >>=-eq-ok (insert_row made store.requests) _ h6 in
      let (read, reread, h8) =
        >>=-eq-ok
          (ok_or (fetch_borrow_request l fresh (record store { requests = requests })) not_found) _
          h7 in
      let (new_id, unused, added) = insert_row-eq-ok made store.requests requests inserted in
      let reads = ok_or-eq-ok _ _ _ (
        ap (λ rs. ok_or (fetch_borrow_request l fresh (record store { requests = rs })) not_found)
          added
        ∙ reread) in
      let same =
        fetch_borrow_request_first l fresh store made read store.requests
          (rw (==_refl l, ==_refl fresh)) reads in
      let done = ok-injective h8 in
      let written =
        subst (IsFiled context.actor l item_id store store') (same ∙ ap (λ p. p.0) done) in
      written record {
        by_guest = guest_of.0;
        of_laboratory = guest_of.1;
        item = item;
        item_found = ok_or-eq-ok _ _ _ found;
        item_here = (==_iff item.laboratory_id l).0 item_here;
        item_available = (eq_iff item.status "available").0 available;
        item_free =
            ap (λ i. pending_borrow_request_exists i store.requests) (sym for_that)
            ∙ not-eq-true _ free;
        id_new = new_id;
        waits = refl;
        for_item = for_that;
        by_actor = refl;
        here = refl;
        stored = ap (λ p. p.1.requests) (sym done) ∙ sym added;
        items_kept = ap (λ p. p.1.items) (sym done);
      }
