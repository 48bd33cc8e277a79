-- ===== src/Borrow/Settling.antt =====
-- What `cancel_borrow_request` has checked when it succeeds, and what it has changed.
use text.Mathlib.Text.{◌==◌ as str_eq}
use text.Mathlib.TextEquality.{eq_iff}
use lab_inventory.Common.{
  ℕ, ◌≡◌, refl, sym, ap, ◌∙◌, true, ◌||◌, Option, none, some, List, ◌⊎◌, inl, inr, Bool-cases, ok,
  ok_or, >>=-eq-ok, guard-eq-ok, ok-injective, ok_or-eq-ok, passed, and-eq-true,
}
use lab_inventory.AccessControl.{Actor, lab_is}
use lab_inventory.AccessControl.Actors.{is_guest, LaboratoryContext}
use lab_inventory.Inventory.Rows.{InventoryItemRow, id_is}
use lab_inventory.Inventory.Merging.{id_is_eq}
use lab_inventory.Borrow.{
  pending, status_text, forbidden, not_found, BorrowRequestRow, Store, find_request,
  fetch_borrow_request, update_rows, set_cancelled,
}
use lab_inventory.Borrow.Flows.{
  validate_request_actor, cancellable_by, link_matches, cancel_borrow_request_in_transaction,
  GuestLinks, cancel_borrow_request,
}
use lab_inventory.Borrow.Rows.{find_request-update_rows_self, IsKeyed}
use lab_inventory.Borrow.Filing.{fetch_borrow_request-eq-some}
use mathlib.Core.Option as Option
use mathlib.Core.Option.{some-injective}

-- The requester of a request: its user, or the guest link that it was made under.
abbrev pub IsRequester : BorrowRequestRow → Actor → Option ℕ → Type 0
IsRequester row actor link =
    ((k : ℕ) × (link ≡ some k) × (row.requester_guest_link_id ≡ some k))
    ⊎ (row.requester_user_id ≡ some actor.user_id)

link_matches_sound :
    (link requester : Option ℕ)
    → link_matches link requester ≡ true
    → (k : ℕ) × (link ≡ some k) × (requester ≡ some k)
link_matches_sound none requester h = cc
link_matches_sound (some k) requester h = (k, refl, id_is_eq requester (some k) h)

cancellable_by-IsRequester :
    (row : BorrowRequestRow) (actor : Actor) (link : Option ℕ)
    → cancellable_by row actor link ≡ true
    → IsRequester row actor link
unfolding cancellable_by
cancellable_by-IsRequester row actor link h =
    elim (Bool-cases (link_matches link row.requester_guest_link_id)) [
      | inl matches ↦ inl (link_matches_sound link row.requester_guest_link_id matches)
      | inr differs ↦ inr (
          id_is_eq row.requester_user_id (some actor.user_id)
            (sym (ap (λ b. b || id_is row.requester_user_id (some actor.user_id)) differs) ∙ h))
    ]

module _ {F : Type 0} where
  pub record IsCancelled (actor : Actor) (l id : ℕ) (link : Option ℕ) (store store' : Store F)
      (row : BorrowRequestRow) : Type 0 where
    pub by_guest : is_guest actor ≡ true
    pub of_laboratory : lab_is actor.laboratory_id l ≡ true
    pub before : BorrowRequestRow
    pub found : find_request l id store.requests ≡ some before
    pub by_requester : IsRequester before actor link
    pub waited : before.status ≡ "pending"
    pub now : row ≡ set_cancelled before
    pub stored : store'.requests ≡ update_rows l id set_cancelled store.requests
    pub items_kept : store'.items ≡ store.items

  pub fetch_updated :
      (l id : ℕ) (store : Store F) (items : List (InventoryItemRow F))
      (change : BorrowRequestRow → BorrowRequestRow) (before row : BorrowRequestRow)
      → IsKeyed change
      → find_request l id store.requests ≡ some before
      → fetch_borrow_request l id
          (record store { items = items; requests = update_rows l id change store.requests })
        ≡ some row
      → change before ≡ row
  fetch_updated l id store items change before row keyed found h =
      let read = fetch_borrow_request-eq-some l id _ row h in
      some-injective _ _ (
        sym (
          find_request-update_rows_self change keyed l id store.requests
          ∙ ap (Option.map change) found)
        ∙ read)

module _ {F : Type 0} (links : GuestLinks) where
  -- A request that is cancelled was pending, and the actor is a guest of the laboratory and its
  -- requester, by the user id or by a guest link that both have. It alone changes, and the items stay.
  pub cancel_borrow_request-IsCancelled :
      (context : LaboratoryContext) (id : ℕ) (store store' : Store F) (row : BorrowRequestRow)
      → cancel_borrow_request links context id store ≡ ok (row, store')
      → IsCancelled context.actor context.laboratory_id id
          (links context.actor.user_id context.laboratory_id)
          store
          store'
          row
  unfolding cancel_borrow_request cancel_borrow_request_in_transaction validate_request_actor
  cancel_borrow_request-IsCancelled context id store store' row h =
      let l = context.laboratory_id in
      let link = links context.actor.user_id l in
      let (u, guest, h1) = >>=-eq-ok (validate_request_actor context.actor l) _ h in
      let guest_of = and-eq-true _ _ (passed _ forbidden guest) in
      let (before, found, h2) =
        >>=-eq-ok (ok_or (fetch_borrow_request l id store) not_found) _ h1 in
      let (allowed, h3) = guard-eq-ok (cancellable_by before context.actor link) _ _ h2 in
      let (waited, h4) = guard-eq-ok (str_eq before.status (status_text pending)) _ _ h3 in
      let (read, reread, h5) =
        >>=-eq-ok
          (ok_or
            (fetch_borrow_request l id
              (record store { requests = update_rows l id set_cancelled store.requests }))
            not_found)
          _ h4 in
      let was = fetch_borrow_request-eq-some l id store before (ok_or-eq-ok _ _ _ found) in
      let done = ok-injective h5 in
      record {
        by_guest = guest_of.0;
        of_laboratory = guest_of.1;
        before = before;
        found = was;
        by_requester = cancellable_by-IsRequester before context.actor link allowed;
        waited = (eq_iff before.status "pending").0 waited;
        now = sym (
            fetch_updated l id store store.items set_cancelled before read (λ r. (refl, refl)) was
              (ok_or-eq-ok _ _ _ reread)
            ∙ ap (λ p. p.0) done);
        stored = ap (λ p. p.1.requests) (sym done);
        items_kept = ap (λ p. p.1.items) (sym done);
      }
