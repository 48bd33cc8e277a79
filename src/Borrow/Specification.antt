-- ===== src/Borrow/Specification.antt =====
-- What the flows of backend/src/routes/borrow_requests promise about the status of a request, as
-- a machine that has the statuses only: a request is filed once, waits, and is closed once.
use lab_inventory.Common.{
  ℕ, ◌≡◌, ◌≢◌, refl, sym, ap, ◌∙◌, true, false, ◌&&◌, Option, some, none, List, ◌∷◌, arith, ◌==◌,
  Bool-cases, inl, inr, and-eq-true, ==_iff, ==_refl,
}
use mathlib.Core.Option as Option
use mathlib.Core.Option.{some-injective}
use lab_inventory.Inventory.Rows.{InventoryItemRow}
use lab_inventory.Borrow.{
  BorrowRequestStatus, pending, approved, rejected, cancelled, status_text, status_of_text,
  BorrowRequestRow, Store, has_key, find_request, update_rows, set_cancelled, set_decision,
}
use lab_inventory.Borrow.Rows.{
  find_request-update_rows_self, find_request-update_rows_ne, find_request_fresh, IsKeyed,
}
use lab_inventory.Borrow.Filing.{create_borrow_request-IsFiled}
use lab_inventory.Borrow.Settling.{cancel_borrow_request-IsCancelled}
use lab_inventory.Borrow.Resolving.{resolve_borrow_request-IsResolved, ItemMoved}
use lab_inventory.Borrow.Lifecycle.{Step, filed, withdrawn, settled, elsewhere, Reach, here, next}

-- The status of each request, by its laboratory and its id.
abbrev pub View : Type 0
View = ℕ → ℕ → Option BorrowRequestStatus

abbrev pub IsKept : ℕ → ℕ → View → View → Type 0
IsKept l id before after =
    (l' id' : ℕ) → (l' == l && id' == id) ≡ false → after l' id' ≡ before l' id'

pub data LifeStep (before after : View) : Type 0 where
  file :
      (l id : ℕ)
      → before l id ≡ none
      → after l id ≡ some pending
      → IsKept l id before after
      → LifeStep before after
  close :
      (l id : ℕ) (verdict : BorrowRequestStatus)
      → before l id ≡ some pending
      → verdict ≢ pending
      → after l id ≡ some verdict
      → IsKept l id before after
      → LifeStep before after
  idle : ((l id : ℕ) → after l id ≡ before l id) → LifeStep before after

abbrev read_status : Option BorrowRequestRow → Option BorrowRequestStatus
read_status none = none
read_status (some row) = status_of_text row.status

unfoldable pub view : {F : Type 0} → Store F → View
view store l id = read_status (find_request l id store.requests)

status_of_text-status_text : (s : BorrowRequestStatus) → status_of_text (status_text s) ≡ some s
status_of_text-status_text pending = refl
status_of_text-status_text approved = refl
status_of_text-status_text rejected = refl
status_of_text-status_text cancelled = refl

find_request_cons_ne :
    (l id : ℕ) (row : BorrowRequestRow) (rows : List BorrowRequestRow)
    → has_key l id row ≡ false
    → find_request l id (row ∷ rows) ≡ find_request l id rows
unfolding find_request
find_request_cons_ne l id row rows h = rw h

find_request_cons_self :
    (l id : ℕ) (row : BorrowRequestRow) (rows : List BorrowRequestRow)
    → has_key l id row ≡ true
    → find_request l id (row ∷ rows) ≡ some row
unfolding find_request
find_request_cons_self l id row rows h = rw h

has_key_other :
    (l l' id' : ℕ) (row : BorrowRequestRow)
    → row.local_laboratory_id ≡ l
    → (l' == l && id' == row.borrow_request_id) ≡ false
    → has_key l' id' row ≡ false
has_key_other l l' id' row same other = ground arith

module _ {F : Type 0} where
  -- A change of one request that waits, to a status that does not.
  closes :
      (l id : ℕ) (store store' : Store F) (change : BorrowRequestRow → BorrowRequestRow)
      (before : BorrowRequestRow) (verdict : BorrowRequestStatus)
      → IsKeyed change
      → find_request l id store.requests ≡ some before
      → before.status ≡ "pending"
      → verdict ≢ pending
      → (change before).status ≡ status_text verdict
      → store'.requests ≡ update_rows l id change store.requests
      → LifeStep (view store) (view store')
  unfolding view
  closes l id store store' change before verdict keyed found waited differs becomes stored =
      close l id verdict (ap read_status found ∙ ap status_of_text waited) differs
        (ap read_status (
            ap (find_request l id) stored
            ∙ find_request-update_rows_self change keyed l id store.requests
            ∙ ap (Option.map change) found)
          ∙ ap status_of_text becomes
          ∙ status_of_text-status_text verdict)
        (λ l' id' other. ap read_status (
          ap (find_request l' id') stored
          ∙ find_request-update_rows_ne change keyed l' id' l id store.requests other))

  -- A verdict that moves an item is not pending.
  verdict-ne :
      (verdict : BorrowRequestStatus) (item : InventoryItemRow F) (store store' : Store F)
      → ItemMoved verdict item store store'
      → verdict ≢ pending
  verdict-ne approved item store store' moved = λ e. cc
  verdict-ne rejected item store store' moved = λ e. cc
  verdict-ne pending item store store' moved = elim moved [ ]
  verdict-ne cancelled item store store' moved = elim moved [ ]

  -- Every step of the flows is a step of the machine on the statuses.
  pub Step-LifeStep :
      {store store' : Store F} → Step store store' → LifeStep (view store) (view store')
  unfolding view
  Step-LifeStep {store} {store'} (filed d fresh context item_id remark row h) =
      let f =
        create_borrow_request-IsFiled d.users d.links d.text fresh context item_id remark store
          store' row h in
      let l = context.laboratory_id in
      let id = row.borrow_request_id in
      file l id (ap read_status (find_request_fresh l id store.requests f.id_new))
        (ap read_status (
            ap (find_request l id) f.stored
            ∙ find_request_cons_self l id row store.requests (rw (f.here, ==_refl l, ==_refl id)))
          ∙ ap status_of_text f.waits)
        (λ l' id' other. ap read_status (
          ap (find_request l' id') f.stored
          ∙ find_request_cons_ne l' id' row store.requests
              (has_key_other l l' id' row f.here other)))
  Step-LifeStep {store} {store'} (withdrawn d context id row h) =
      let c = cancel_borrow_request-IsCancelled d.links context id store store' row h in
      closes context.laboratory_id id store store' set_cancelled c.before cancelled
        (λ r. (refl, refl)) c.found c.waited (λ e. cc) refl c.stored
  Step-LifeStep {store} {store'} (settled d context id decision remark row h) =
      let (verdict, asked, r) =
        resolve_borrow_request-IsResolved d.users d.text context id decision remark store store' row
          h in
      closes context.laboratory_id id store store'
        (set_decision (status_text verdict) context.actor.user_id r.reviewer r.note) r.before
        verdict (λ x. (refl, refl)) r.found r.waited
        (verdict-ne verdict r.item store store' r.moved) refl r.stored
  Step-LifeStep {store} {store'} (elsewhere same) =
      idle (λ l id. ap (λ rows. read_status (find_request l id rows)) same)

apart : (view : View) (l id l' id' : ℕ) → view l id ≢ view l' id' → (l == l' && id == id') ≡ false
apart view l id l' id' differs = elim (Bool-cases (l == l' && id == id')) [
  | inl same ↦
      let (a, b) = and-eq-true _ _ same in
      elim (differs
        (ap (λ x. view x id) ((==_iff l l').0 a) ∙ ap (view l') ((==_iff id id').0 b))) [ ]
  | inr other ↦ other
]

-- What is closed stays as it is.
verdict_stays :
    {before after : View} (l id : ℕ) (verdict : BorrowRequestStatus)
    → LifeStep before after
    → before l id ≡ some verdict
    → verdict ≢ pending
    → after l id ≡ some verdict
verdict_stays {before} l id verdict (file l' id' new waits kept) was closed =
    kept l id (apart before l id l' id' (λ e. cc)) ∙ was
verdict_stays {before} l id verdict (close l' id' other was_pending differs now kept) was closed =
    kept l id
      (apart before l id l' id' (λ e. closed (some-injective _ _ (sym was ∙ e ∙ was_pending))))
    ∙ was
verdict_stays {before} l id verdict (idle same) was closed = same l id ∙ was

-- A request that was decided or cancelled keeps its status in every store that the flows reach.
pub settled_stays :
    {F : Type 0} {start store : Store F} (l id : ℕ) (verdict : BorrowRequestStatus)
    → view start l id ≡ some verdict
    → verdict ≢ pending
    → Reach start store
    → view store l id ≡ some verdict
settled_stays l id verdict was closed here = was
settled_stays l id verdict was closed (next reached step) =
    verdict_stays l id verdict (Step-LifeStep step) (settled_stays l id verdict was closed reached)
      closed
