-- ===== src/Borrow/Resolving.antt =====
-- What `resolve_borrow_request` has checked when it succeeds, and what it has changed.
use text.Mathlib.Text.{◌==◌ as str_eq}
use text.Mathlib.TextEquality.{eq_iff}
use mathlib.Core.Path.{subst}
use lab_inventory.Common.{
  ℕ, ◌≡◌, refl, sym, ap, ◌∙◌, String, Bool, true, false, not, ◌&&◌, ◌||◌, Option, some, ok, ok_or,
  >>=-eq-ok, guard-eq-ok, ok-injective, ok_or-eq-ok, passed, and-eq-true,
}
use lab_inventory.AccessControl.{Actor, lab_is}
use lab_inventory.AccessControl.Actors.{is_lab_admin, is_regular_user, LaboratoryContext}
use lab_inventory.Inventory.{TextOps, normalize_optional_text}
use lab_inventory.Inventory.Rows.{InventoryItemRow}
use lab_inventory.Borrow.{
  BorrowRequestStatus, pending, approved, rejected, cancelled, status_text, parse_borrow_status,
  forbidden, not_found, BorrowRequestRow, BorrowActorRow, Store, find_request, find_item,
  fetch_borrow_request, update_rows, set_decision, mark_borrowed,
}
use lab_inventory.Borrow.Flows.{
  validate_resolver_actor, decided, is_approval, approve_item, write_decision,
  resolve_borrow_request,
}
use lab_inventory.Borrow.Filing.{fetch_borrow_request-eq-some}
use lab_inventory.Borrow.Settling.{fetch_updated}

-- A decision moves the item with an approval, and leaves all items with a rejection.
abbrev pub ItemMoved :
    {F : Type 0} → BorrowRequestStatus → InventoryItemRow F → Store F → Store F → Type 0
ItemMoved approved item store store' =
    (item.status ≡ "available") × (store'.items ≡ mark_borrowed item.inventory_item_id store.items)
ItemMoved rejected item store store' = store'.items ≡ store.items
ItemMoved _ item store store' = ⊥

abbrev IsFinal : BorrowRequestStatus → Type 0
IsFinal approved = Unit {0}
IsFinal rejected = Unit {0}
IsFinal _ = ⊥

decided-eq-ok :
    (parsed verdict : BorrowRequestStatus) → decided parsed ≡ ok verdict → parsed ≡ verdict
decided-eq-ok pending verdict h = cc
decided-eq-ok cancelled verdict h = cc
decided-eq-ok approved verdict h = ok-injective h
decided-eq-ok rejected verdict h = ok-injective h

decided-IsFinal :
    (parsed verdict : BorrowRequestStatus) → decided parsed ≡ ok verdict → IsFinal verdict
decided-IsFinal pending verdict h = cc
decided-IsFinal cancelled verdict h = cc
decided-IsFinal approved verdict h = subst IsFinal (ok-injective h) tt
decided-IsFinal rejected verdict h = subst IsFinal (ok-injective h) tt

double_negation : (b : Bool) → not (not b) ≡ true → b ≡ true
double_negation true h = refl
double_negation false h = cc

module _ {F : Type 0} where
  pub record IsResolved (actor : Actor) (l id : ℕ) (store store' : Store F) (row : BorrowRequestRow)
      (verdict : BorrowRequestStatus) : Type 0 where
    pub by_staff : (is_lab_admin actor || is_regular_user actor) ≡ true
    pub of_laboratory : lab_is actor.laboratory_id l ≡ true
    pub before : BorrowRequestRow
    pub found : find_request l id store.requests ≡ some before
    pub waited : before.status ≡ "pending"
    pub item : InventoryItemRow F
    pub item_found : find_item before.inventory_item_id store.items ≡ some item
    pub moved : ItemMoved verdict item store store'
    pub reviewer : BorrowActorRow
    pub note : Option String
    pub now : row ≡ set_decision (status_text verdict) actor.user_id reviewer note before
    pub stored :
        store'.requests
        ≡ update_rows l id
            (set_decision (status_text verdict) actor.user_id reviewer note)
            store.requests

  item_moved :
      (verdict : BorrowRequestStatus) (actor : Actor) (item : InventoryItemRow F) (store : Store F)
      → IsFinal verdict
      → not (is_approval verdict && not (str_eq item.status "available")) ≡ true
      → ItemMoved verdict item store (approve_item verdict actor item.inventory_item_id store)
  item_moved approved actor item store final allowed =
      ((eq_iff item.status "available").0 (double_negation _ allowed), refl)
  item_moved rejected actor item store final allowed = refl
  item_moved pending actor item store final allowed = final
  item_moved cancelled actor item store final allowed = final

  approve_item_requests :
      (verdict : BorrowRequestStatus) (actor : Actor) (id : ℕ) (store : Store F)
      → (approve_item verdict actor id store).requests ≡ store.requests
  approve_item_requests approved actor id store = refl
  approve_item_requests pending actor id store = refl
  approve_item_requests rejected actor id store = refl
  approve_item_requests cancelled actor id store = refl

  ItemMoved-items :
      (verdict : BorrowRequestStatus) (item : InventoryItemRow F) (store after after' : Store F)
      → after.items ≡ after'.items
      → ItemMoved verdict item store after
      → ItemMoved verdict item store after'
  ItemMoved-items approved item store after after' h (available, moved) = (available, sym h ∙ moved)
  ItemMoved-items rejected item store after after' h kept = sym h ∙ kept
  ItemMoved-items pending item store after after' h kept = kept
  ItemMoved-items cancelled item store after after' h kept = kept

  write_decision-eq-ok :
      (actor : Actor) (l id : ℕ) (verdict : BorrowRequestStatus) (reviewer : BorrowActorRow)
      (note : Option String) (item_id : ℕ) (store store' : Store F) (before row : BorrowRequestRow)
      → find_request l id store.requests ≡ some before
      → write_decision actor l id verdict reviewer note item_id store ≡ ok (row, store')
      → (row ≡ set_decision (status_text verdict) actor.user_id reviewer note before)
        × (store'.requests
            ≡ update_rows l id
                (set_decision (status_text verdict) actor.user_id reviewer note)
                store.requests)
        × ((approve_item verdict actor item_id store).items ≡ store'.items)
  unfolding write_decision
  write_decision-eq-ok actor l id verdict reviewer note item_id store store' before row was h =
      let moved = approve_item verdict actor item_id store in
      let change = set_decision (status_text verdict) actor.user_id reviewer note in
      let (now, reread, h') =
        >>=-eq-ok
          (ok_or
            (fetch_borrow_request l id
              (record moved { requests = update_rows l id change moved.requests }))
            not_found)
          _ h in
      let done = ok-injective h' in
      let same = approve_item_requests verdict actor item_id store in
      (
        sym (
            fetch_updated l id moved moved.items change before now (λ r. (refl, refl))
              (ap (find_request l id) same ∙ was) (ok_or-eq-ok _ _ _ reread)
            ∙ ap (λ p. p.0) done),
        ap (λ p. p.1.requests) (sym done) ∙ ap (update_rows l id change) same,
        ap (λ p. p.1.items) done,
      )

module _ {F : Type 0} (users : ℕ → Option BorrowActorRow) (text : TextOps) where
  -- A decision that succeeds is approved or rejected as it was asked for, by staff of the laboratory,
  -- on a request there that was pending: an approval marks its item, which was available, as borrowed,
  -- a rejection leaves the items, and nothing but the decision of that request changes among the requests.
  pub resolve_borrow_request-IsResolved :
      (context : LaboratoryContext) (id : ℕ) (decision : String) (note : Option String)
      (store store' : Store F) (row : BorrowRequestRow)
      → resolve_borrow_request users text context id decision note store ≡ ok (row, store')
      → (verdict : BorrowRequestStatus) × (parse_borrow_status text decision ≡ ok verdict)
        × IsResolved context.actor context.laboratory_id id store store' row verdict
  unfolding resolve_borrow_request validate_resolver_actor
  resolve_borrow_request-IsResolved context id decision note store store' row h =
      let l = context.laboratory_id in
      let actor = context.actor in
      let (u, staff, h1) = >>=-eq-ok (validate_resolver_actor actor l) _ h in
      let staff_of = and-eq-true _ _ (passed _ forbidden staff) in
      let (parsed, read, h2) = >>=-eq-ok (parse_borrow_status text decision) _ h1 in
      let (verdict, decides, h3) = >>=-eq-ok (decided parsed) _ h2 in
      let (before, found, h4) =
        >>=-eq-ok (ok_or (fetch_borrow_request l id store) not_found) _ h3 in
      let (waited, h5) = guard-eq-ok (str_eq before.status (status_text pending)) _ _ h4 in
      let (item, known, h6) =
        >>=-eq-ok (ok_or (find_item before.inventory_item_id store.items) not_found) _ h5 in
      let (allowed, h7) =
        guard-eq-ok (not (is_approval verdict && not (str_eq item.status "available"))) _ _ h6 in
      let (reviewer, exists, h8) = >>=-eq-ok (ok_or (users actor.user_id) forbidden) _ h7 in
      let was = fetch_borrow_request-eq-some l id store before (ok_or-eq-ok _ _ _ found) in
      let (written, stored, items) =
        write_decision-eq-ok actor l id verdict reviewer (normalize_optional_text text note)
          item.inventory_item_id store store' before row was h8 in
      (
        verdict,
        read ∙ ap ok (decided-eq-ok parsed verdict decides),
        record {
          by_staff = staff_of.0;
          of_laboratory = staff_of.1;
          before = before;
          found = was;
          waited = (eq_iff before.status "pending").0 waited;
          item = item;
          item_found = ok_or-eq-ok _ _ _ known;
          moved =
              ItemMoved-items verdict item store
                (approve_item verdict actor item.inventory_item_id store) store' items
                (item_moved verdict actor item store (decided-IsFinal parsed verdict decides)
                  allowed);
          reviewer = reviewer;
          note = normalize_optional_text text note;
          now = written;
          stored = stored;
        },
      )
