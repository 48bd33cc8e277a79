-- ===== src/AccessControl/Tests.antt =====
-- The access control theorems at a concrete database and actors.
use lab_inventory.Common.{
  ℕ, ◌≡◌, ◌⊎◌, ◌≢◌, refl, String, true, Option, none, some, ◌==◌, if◌then◌else◌, Result, ok,
}
use lab_inventory.AccessControl.{
  super_admin, lab_admin, user, guest, Actor, UserRole, Database, DbError, asset, inventory_item,
  location, user_account, read, update, update_user, parse_user_type,
}
use lab_inventory.AccessControl.Actors.{
  LaboratoryContext, can_manage_user, can_write_laboratory_resource, authorization_actor,
  from_request,
}
use lab_inventory.AccessControl.Views.{
  can_manage_asset, can_manage_inventory_item, can_view_user, get_actor,
}
use lab_inventory.AccessControl.Permissions.{validate_permission}
use lab_inventory.AccessControl.Targets.{IsShared}
use lab_inventory.AccessControl.Isolation.{validate_permission_isolated, from_request_isolated}
use lab_inventory.AccessControl.Roles.{IsUnder, update_user-IsUnder}
use lab_inventory.AccessControl.Guests.{validate_permission-guest}

-- Row 5 of each table belongs to laboratory 1, and there is no other row.
abbrev row_five : ℕ → Result DbError (Option ℕ)
row_five id = if id == 5 then ok (some 1) else ok none

abbrev pool : Database
pool = record {
  unit_laboratory = row_five;
  location_laboratory = row_five;
  asset_category_laboratory = row_five;
  asset_parameter_laboratory = row_five;
  asset_laboratory = row_five;
  inventory_item_laboratory = row_five;
  label_printer_laboratory = row_five;
  file_upload = λ id. ok none;
  attachment_assignment = λ id. ok none;
  actor_row = λ id.
      ok
        (some (record { user_id = some id; user_type_name = some "user"; laboratory_id = some 1 }));
}

abbrev admin_one : Actor
admin_one = record { user_id = 10; user_type = lab_admin; laboratory_id = some 1 }

abbrev visitor : Actor
visitor = record { user_id = 11; user_type = guest; laboratory_id = some 1 }

abbrev operator : Actor
operator = record { user_id = 12; user_type = super_admin; laboratory_id = none }

abbrev user_one : UserRole
user_one = record { user_type = user; laboratory_id = some 1 }

granted : validate_permission pool admin_one asset (update 5) ≡ ok true
unfolding validate_permission can_manage_asset
granted = refl

validate_permission_isolated_example :
    (admin_one.laboratory_id ≡ some 1) ⊎ IsShared pool admin_one asset (update 5)
validate_permission_isolated_example =
    validate_permission_isolated pool admin_one 1 refl asset (update 5) granted refl

-- A super administrator on a route that names laboratory 1.
abbrev parse_uuid : String → Option ℕ
parse_uuid s = some 1

abbrev context : LaboratoryContext
context = record { actor = operator; laboratory_id = 1 }

extracted : from_request parse_uuid (some operator) (some "1") ≡ ok context
unfolding from_request
extracted = refl

granted_in_context :
    validate_permission pool (authorization_actor context) inventory_item (update 5) ≡ ok true
unfolding validate_permission authorization_actor can_manage_inventory_item
    can_write_laboratory_resource
granted_in_context = refl

from_request_isolated_example :
    (◌≡◌ {A = ℕ} 1 context.laboratory_id)
    ⊎ IsShared pool (authorization_actor context) inventory_item (update 5)
from_request_isolated_example =
    from_request_isolated parse_uuid (some operator) (some "1") context pool inventory_item
      (update 5) 1 extracted granted_in_context refl

promotes : validate_permission pool admin_one user_account (update_user user_one user_one) ≡ ok true
unfolding validate_permission can_manage_user
promotes = refl

update_user-IsUnder_example : IsUnder admin_one user_one × IsUnder admin_one user_one
update_user-IsUnder_example = update_user-IsUnder pool admin_one user_one user_one promotes

validate_permission-guest_example : validate_permission pool visitor location (update 5) ≢ ok true
validate_permission-guest_example =
    validate_permission-guest pool visitor refl location (update 5) refl refl

sees_itself : validate_permission pool visitor user_account (read 11) ≡ ok true
unfolding validate_permission can_view_user get_actor parse_user_type
sees_itself = refl
