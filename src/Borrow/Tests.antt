-- ===== src/Borrow/Tests.antt =====
-- Borrow requests on concrete stores: a guest files a request and cancels it, or an administrator
-- of the laboratory decides it.
use lab_inventory.Common.{
  ℕ, ◌≤◌, arith, ◌≡◌, refl, String, false, Option, none, some, [], ◌∷◌, ok, err, if◌then◌else◌,
  ◌==◌, ◌&&◌,
}
use lab_inventory.AccessControl.{guest, lab_admin}
use lab_inventory.AccessControl.Actors.{LaboratoryContext}
use lab_inventory.Inventory.{TextOps}
use lab_inventory.Inventory.Rows.{InventoryItemRow}
use lab_inventory.Borrow.{
  BorrowRequestStatus, cancelled, conflict, parse_borrow_status, BorrowRequestRow, BorrowActorRow,
  Store, find_request, find_item, set_decision, audit_create, audit_update, borrow_request_resource,
  inventory_item_resource, AuditRecord,
}
use lab_inventory.Borrow.Flows.{
  create_borrow_request, cancel_borrow_request, resolve_borrow_request, GuestLinks,
}
use lab_inventory.Borrow.Rows.{pending_count}
use lab_inventory.Borrow.Filing.{IsFiled, create_borrow_request-IsFiled}
use lab_inventory.Borrow.Settling.{IsCancelled, cancel_borrow_request-IsCancelled}
use lab_inventory.Borrow.Resolving.{IsResolved, resolve_borrow_request-IsResolved}
use lab_inventory.Borrow.Lifecycle.{
  Directory, Step, filed, settled, withdrawn, Reach, here, next, IsExclusive, Reach-IsExclusive,
}
use lab_inventory.Borrow.Specification.{LifeStep, view, Step-LifeStep, settled_stays}
use lab_inventory.Borrow.Closing.{IsClosed}
use lab_inventory.Borrow.Progress.{resolve_borrow_request_rejects, cancel_borrow_request_cancels}

abbrev plain : TextOps
plain = record { trim = λ s. s; grapheme_count = λ s. 0; has_char = λ s c. false }

abbrev users : ℕ → Option BorrowActorRow
users id =
    if id == 11
    then some record { username = "visitor"; user_type_name = "guest" }
    else if id == 10
    then some record { username = "head"; user_type_name = "lab_admin" }
    else none

abbrev links : GuestLinks
links id laboratory_id = if id == 11 && laboratory_id == 1 then some 70 else none

abbrev d : Directory
d = record { users = users; links = links; text = plain }

abbrev by_visitor : LaboratoryContext
by_visitor = record {
  actor = record { user_id = 11; user_type = guest; laboratory_id = some 1 };
  laboratory_id = 1;
}

abbrev by_head : LaboratoryContext
by_head = record {
  actor = record { user_id = 10; user_type = lab_admin; laboratory_id = some 1 };
  laboratory_id = 1;
}

abbrev item_with : String → InventoryItemRow ℕ
item_with status = record {
  inventory_item_id = 3;
  asset_id = 20;
  laboratory_id = 1;
  tracking_mode = "serialized";
  serial_number = some "SN-1";
  batch_number = none;
  quantity_on_hand = 1;
  quantity_allocated = 0;
  location_id = some 9;
  status = status;
  public_notes = none;
  internal_notes = none;
}

abbrev request : String → BorrowRequestRow
request status = record {
  borrow_request_id = 50;
  local_laboratory_id = 1;
  inventory_item_id = 3;
  requester_user_id = some 11;
  requester_username = "visitor";
  requester_user_type = "guest";
  requester_guest_link_id = some 70;
  request_note = none;
  status = status;
  reviewed_by_user_id = none;
  reviewed_by_username = none;
  reviewed_by_user_type = none;
  decision_note = none;
}

abbrev head_row : BorrowActorRow
head_row = record { username = "head"; user_type_name = "lab_admin" }

abbrev log : ℕ → ℕ → AuditRecord
log actor id = record {
  actor_id = actor;
  action = audit_update;
  resource = borrow_request_resource;
  resource_id = id;
}

abbrev at_first : Store ℕ
at_first = record { items = item_with "available" ∷ []; requests = []; audit = [] }

abbrev waiting : Store ℕ
waiting = record {
  items = item_with "available" ∷ [];
  requests = request "pending" ∷ [];
  audit =
      record {
        actor_id = 11;
        action = audit_create;
        resource = borrow_request_resource;
        resource_id = 50;
      }
      ∷ [];
}

abbrev dropped : Store ℕ
dropped = record {
  items = item_with "available" ∷ [];
  requests = request "cancelled" ∷ [];
  audit = log 11 50 ∷ waiting.audit;
}

abbrev lent : Store ℕ
lent = record {
  items = item_with "borrowed" ∷ [];
  requests = set_decision "approved" 10 head_row none (request "pending") ∷ [];
  audit =
      log 10 50
      ∷ record {
        actor_id = 10;
        action = audit_update;
        resource = inventory_item_resource;
        resource_id = 3;
      }
      ∷ waiting.audit;
}

files :
    create_borrow_request users links plain 50 by_visitor 3 none at_first
    ≡ ok (request "pending", waiting)
unfolding create_borrow_request
files = refl

withdraws : cancel_borrow_request links by_visitor 50 waiting ≡ ok (request "cancelled", dropped)
unfolding cancel_borrow_request
withdraws = refl

lends :
    resolve_borrow_request users plain by_head 50 "approved" none waiting
    ≡ ok (set_decision "approved" 10 head_row none (request "pending"), lent)
unfolding resolve_borrow_request
lends = refl

refuses_twice : create_borrow_request users links plain 51 by_visitor 3 none waiting ≡ err conflict
unfolding create_borrow_request
refuses_twice = refl

refuses_cancelled :
    resolve_borrow_request users plain by_head 50 "approved" none dropped ≡ err conflict
unfolding resolve_borrow_request
refuses_cancelled = refl

filing : Step at_first waiting
filing = filed d 50 by_visitor 3 none (request "pending") files

lending : Step waiting lent
lending =
    settled d by_head 50 "approved" none
      (set_decision "approved" 10 head_row none (request "pending")) lends

reached : Reach at_first lent
reached = next (next here filing) lending

create_borrow_request-IsFiled_example :
    IsFiled by_visitor.actor 1 3 at_first waiting (request "pending")
create_borrow_request-IsFiled_example =
    create_borrow_request-IsFiled users links plain 50 by_visitor 3 none at_first waiting
      (request "pending") files

cancel_borrow_request-IsCancelled_example :
    IsCancelled by_visitor.actor 1 50 (some 70) waiting dropped (request "cancelled")
cancel_borrow_request-IsCancelled_example =
    cancel_borrow_request-IsCancelled links by_visitor 50 waiting dropped (request "cancelled")
      withdraws

resolve_borrow_request-IsResolved_example :
    (verdict : BorrowRequestStatus) × (parse_borrow_status plain "approved" ≡ ok verdict)
    × IsResolved by_head.actor 1 50 waiting lent
        (set_decision "approved" 10 head_row none (request "pending"))
        verdict
resolve_borrow_request-IsResolved_example =
    resolve_borrow_request-IsResolved users plain by_head 50 "approved" none waiting lent
      (set_decision "approved" 10 head_row none (request "pending")) lends

Reach-IsExclusive_example : IsExclusive lent
Reach-IsExclusive_example = Reach-IsExclusive refl reached

Step-LifeStep_example : LifeStep (view waiting) (view lent)
Step-LifeStep_example = Step-LifeStep lending

withdrawal : Step waiting dropped
withdrawal = withdrawn d by_visitor 50 (request "cancelled") withdraws

cancelled_view : view dropped 1 50 ≡ some cancelled
unfolding view find_request
cancelled_view = refl

abbrev again : Store ℕ
again = record {
  items = item_with "available" ∷ [];
  requests = record (request "pending") { borrow_request_id = 51 } ∷ request "cancelled" ∷ [];
  audit =
      record {
        actor_id = 11;
        action = audit_create;
        resource = borrow_request_resource;
        resource_id = 51;
      }
      ∷ dropped.audit;
}

files_again :
    create_borrow_request users links plain 51 by_visitor 3 none dropped
    ≡ ok (record (request "pending") { borrow_request_id = 51 }, again)
unfolding create_borrow_request
files_again = refl

reached_again : Reach dropped again
reached_again = next here (
    filed d 51 by_visitor 3 none (record (request "pending") { borrow_request_id = 51 })
      files_again)

settled_stays_example : view again 1 50 ≡ some cancelled
settled_stays_example = settled_stays 1 50 cancelled cancelled_view (λ e. cc) reached_again

found_request : find_request 1 50 waiting.requests ≡ some (request "pending")
unfolding find_request
found_request = refl

found_item : find_item 3 waiting.items ≡ some (item_with "available")
unfolding find_item
found_item = refl

one_waits : pending_count 3 waiting.requests ≤ 1
unfolding pending_count
one_waits = omega arith

resolve_borrow_request_rejects_example :
    (closed : BorrowRequestRow) × (after : Store ℕ) × (resolve_borrow_request users plain by_head 50
        "rejected" none waiting
      ≡ ok (closed, after))
    × IsClosed 1 50 "rejected" (request "pending") waiting after closed
    × (closed.reviewed_by_user_id ≡ some 10)
resolve_borrow_request_rejects_example =
    resolve_borrow_request_rejects users plain by_head 50 "rejected" none waiting
      (request "pending") (item_with "available") head_row refl refl refl refl found_request
      found_item refl one_waits

cancel_borrow_request_cancels_example :
    (closed : BorrowRequestRow) × (after : Store ℕ) × (cancel_borrow_request links by_visitor 50
        waiting
      ≡ ok (closed, after))
    × IsClosed 1 50 "cancelled" (request "pending") waiting after closed
cancel_borrow_request_cancels_example =
    cancel_borrow_request_cancels links by_visitor 50 waiting (request "pending")
      (item_with "available") refl refl found_request found_item refl refl one_waits
