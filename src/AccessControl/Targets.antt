-- ===== src/AccessControl/Targets.antt =====
-- The laboratory that an action concerns: what permissions on resources are judged against.
use lab_inventory.Common.{ℕ, ◌≡◌, Bool, true, false, ◌||◌, Option, none, some, Result, ok, err}
use lab_inventory.AccessControl.{
  Actor, Database, DbError, create_user, delete_user, update_user, FileUploadRow,
  AttachmentAssignmentRow, ResourceType, Action, laboratory, user_account, guest_registration_code,
  unit_of_measure, location, asset, inventory_item, asset_category, asset_parameter,
  attachment_assignment, file_upload_resource, federation, label_printer, assign, create, delete,
  read, browse, browse_internal, update,
}
use lab_inventory.AccessControl.Views.{get_actor}

-- The laboratory that owns the row of a query.
abbrev pub row_lab : Result DbError (Option ℕ) → Option ℕ
row_lab (ok row) = row
row_lab (err e) = none

abbrev pub upload_lab : Result DbError (Option FileUploadRow) → Option ℕ
upload_lab (ok (some row)) = some row.laboratory_id
upload_lab _ = none

abbrev pub attachment_lab : Result DbError (Option AttachmentAssignmentRow) → Option ℕ
attachment_lab (ok (some row)) = some row.laboratory_id
attachment_lab _ = none

-- The laboratory of an action on a kind of resource that belongs to laboratories: the one that is
-- named, or the one that owns the row that is named.
abbrev pub of_rows : (ℕ → Option ℕ) → Action → Option ℕ
of_rows owner (create l) = some l
of_rows owner (browse l) = some l
of_rows owner (browse_internal l) = some l
of_rows owner (delete id) = owner id
of_rows owner (read id) = owner id
of_rows owner (update id) = owner id
of_rows owner _ = none

-- An action that names a laboratory itself.
abbrev pub of_laboratory : Action → Option ℕ
of_laboratory (create l) = some l
of_laboratory (delete l) = some l
of_laboratory (read l) = some l
of_laboratory (update l) = some l
of_laboratory (browse_internal l) = some l
of_laboratory (browse l) = some l
of_laboratory _ = none

abbrev pub of_uploads : Database → Action → Option ℕ
of_uploads pool (create l) = some l
of_uploads pool (browse l) = some l
of_uploads pool (read id) = upload_lab (pool.file_upload id)
of_uploads pool (delete id) = upload_lab (pool.file_upload id)
of_uploads pool (assign id) = upload_lab (pool.file_upload id)
of_uploads pool _ = none

abbrev pub user_lab : Result DbError (Option Actor) → Option ℕ
user_lab (ok (some found)) = found.laboratory_id
user_lab _ = none

-- An action on a role names the laboratory of the role, for an update the one before it.
abbrev pub of_users : Database → Action → Option ℕ
of_users pool (create_user role) = role.laboratory_id
of_users pool (delete_user role) = role.laboratory_id
of_users pool (update_user role updated) = role.laboratory_id
of_users pool (read id) = user_lab (get_actor pool id)
of_users pool _ = none

-- The laboratory that an action concerns.
abbrev pub target_laboratory : Database → ResourceType → Action → Option ℕ
target_laboratory pool laboratory action = of_laboratory action
target_laboratory pool user_account action = of_users pool action
target_laboratory pool guest_registration_code action = of_laboratory action
target_laboratory pool unit_of_measure action =
    of_rows (λ id. row_lab (pool.unit_laboratory id)) action
target_laboratory pool location action =
    of_rows (λ id. row_lab (pool.location_laboratory id)) action
target_laboratory pool asset action = of_rows (λ id. row_lab (pool.asset_laboratory id)) action
target_laboratory pool inventory_item action =
    of_rows (λ id. row_lab (pool.inventory_item_laboratory id)) action
target_laboratory pool asset_category action =
    of_rows (λ id. row_lab (pool.asset_category_laboratory id)) action
target_laboratory pool asset_parameter action =
    of_rows (λ id. row_lab (pool.asset_parameter_laboratory id)) action
target_laboratory pool attachment_assignment action =
    of_rows (λ id. attachment_lab (pool.attachment_assignment id)) action
target_laboratory pool file_upload_resource action = of_uploads pool action
target_laboratory pool federation action = of_laboratory action
target_laboratory pool label_printer action =
    of_rows (λ id. row_lab (pool.label_printer_laboratory id)) action

abbrev pub is_closed : Result DbError (Option FileUploadRow) → Bool
is_closed (ok (some row)) = row.is_consumed || row.is_expired
is_closed _ = false

-- What may be granted across laboratories: to read an upload, to assign one that is consumed or expired,
-- to browse the laboratories, and to read one's own account.
abbrev pub IsShared : Database → Actor → ResourceType → Action → Type 0
IsShared pool actor file_upload_resource (read id) = Unit
IsShared pool actor file_upload_resource (assign id) = is_closed (pool.file_upload id) ≡ true
IsShared pool actor laboratory (browse l) = Unit
IsShared pool actor user_account (read id) = actor.user_id ≡ id
IsShared pool actor _ _ = ◌≡◌ {A = Bool} false true
