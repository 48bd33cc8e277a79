-- ===== src/AccessControl/Views.antt =====
-- backend/src/access_control.rs: the predicates of `Actor` that read the database.
use lab_inventory.Common.{
  ℕ, Bool, true, false, not, ◌&&◌, ◌||◌, Option, none, some, ◌==◌, if◌then◌else◌, Result, ok, ◌>>=◌,
  ok_or,
}
use lab_inventory.AccessControl.{
  Actor, Database, DbError, null_column, bad_user_type, FileUploadRow, AttachmentAssignmentRow,
  ActorRow, parse_user_type, is_system_type, lab_is,
}
use lab_inventory.AccessControl.Actors.{
  is_guest, is_admin, is_system_admin, is_lab_admin, is_super_admin, is_root, same_lab,
  type_is_root, can_manage_units, can_query_laboratory_resource, can_write_laboratory_resource,
  can_manage_label_printers, can_use_label_printers,
}

-- `row.map(|row| test(row.laboratory_id)).unwrap_or(false)`
abbrev pub or_false : (ℕ → Bool) → Option ℕ → Bool
or_false test none = false
or_false test (some laboratory_id) = test laboratory_id

abbrev pub owned : (ℕ → Bool) → Result DbError (Option ℕ) → Result DbError Bool
owned test query = do row ← query; ok (or_false test row)

-- `!self.is_guest() && (self.is_system_admin() || self.laboratory_id == Some(laboratory_id))`
abbrev pub manages : Actor → ℕ → Bool
manages self laboratory_id =
    not (is_guest self) && (is_system_admin self || lab_is self.laboratory_id laboratory_id)

unfoldable pub actor_of_row : ActorRow → Result DbError (Option Actor)
actor_of_row row = do
  user_id ← ok_or row.user_id null_column
  name ← ok_or row.user_type_name null_column
  user_type ← ok_or (parse_user_type name) bad_user_type
  ok (some (record { user_id = user_id; user_type = user_type; laboratory_id = row.laboratory_id }))

unfoldable pub actor_of : Option ActorRow → Result DbError (Option Actor)
unfolding actor_of_row
actor_of none = ok none
actor_of (some row) = actor_of_row row

module _ (pool : Database) where
  unfoldable pub get_actor : ℕ → Result DbError (Option Actor)
  unfolding actor_of
  get_actor user_id = do row ← pool.actor_row user_id; actor_of row

unfoldable pub view_of_actor : Actor → ℕ → Option Actor → Bool
view_of_actor self target_user_id none = false
view_of_actor self target_user_id (some target_user) =
    if self.user_id == target_user_id
    then true
    else if is_guest self
    then false
    else if is_root self
    then true
    else if is_admin self
    then (if is_lab_admin self
        then (if is_system_type target_user.user_type
            then false
            else same_lab self.laboratory_id target_user.laboratory_id)
        else if is_super_admin self
        then not (type_is_root target_user.user_type)
        else false)
    else same_lab target_user.laboratory_id self.laboratory_id

unfoldable pub upload_allowed : Actor → Option FileUploadRow → Bool
upload_allowed self none = true
upload_allowed self (some upload) =
    (is_system_admin self || lab_is self.laboratory_id upload.laboratory_id)
    && (is_system_admin self || self.user_id == upload.uploaded_by_user_id)

-- `AND consumed_at IS NULL AND expires_at > now()`
unfoldable pub pending : Option FileUploadRow → Option FileUploadRow
pending none = none
pending (some upload) =
    if not upload.is_consumed && not upload.is_expired then some upload else none

unfoldable pub attachment_managed : Actor → Option AttachmentAssignmentRow → Bool
attachment_managed self none = false
attachment_managed self (some assignment) =
    is_system_admin self || lab_is self.laboratory_id assignment.laboratory_id

unfoldable pub attachment_viewed : Actor → Option AttachmentAssignmentRow → Bool
attachment_viewed self none = false
attachment_viewed self (some assignment) =
    is_system_admin self
    || (lab_is self.laboratory_id assignment.laboratory_id
        && (assignment.is_public || not (is_guest self)))

module _ (pool : Database) (self : Actor) where
  unfoldable pub can_view_user : ℕ → Result DbError Bool
  unfolding view_of_actor
  can_view_user target_user_id = do
    target_user ← get_actor pool target_user_id
    ok (view_of_actor self target_user_id target_user)

  unfoldable pub can_manage_unit : ℕ → Result DbError Bool
  can_manage_unit unit_id = owned (can_manage_units self) (pool.unit_laboratory unit_id)

  unfoldable pub can_view_unit : ℕ → Result DbError Bool
  can_view_unit unit_id =
      owned (λ l. is_system_admin self || lab_is self.laboratory_id l)
        (pool.unit_laboratory unit_id)

  unfoldable pub can_manage_location : ℕ → Result DbError Bool
  can_manage_location location_id = owned (manages self) (pool.location_laboratory location_id)

  unfoldable pub can_view_location : ℕ → Result DbError Bool
  can_view_location location_id =
      owned (can_query_laboratory_resource self) (pool.location_laboratory location_id)

  unfoldable pub can_manage_asset_category : ℕ → Result DbError Bool
  can_manage_asset_category category_id =
      owned (manages self) (pool.asset_category_laboratory category_id)

  unfoldable pub can_view_asset_category : ℕ → Result DbError Bool
  can_view_asset_category category_id =
      owned (can_query_laboratory_resource self) (pool.asset_category_laboratory category_id)

  unfoldable pub can_manage_asset_parameter : ℕ → Result DbError Bool
  can_manage_asset_parameter parameter_id =
      owned (manages self) (pool.asset_parameter_laboratory parameter_id)

  unfoldable pub can_view_asset_parameter : ℕ → Result DbError Bool
  can_view_asset_parameter parameter_id =
      owned (can_query_laboratory_resource self) (pool.asset_parameter_laboratory parameter_id)

  unfoldable pub can_manage_asset : ℕ → Result DbError Bool
  can_manage_asset asset_id = owned (manages self) (pool.asset_laboratory asset_id)

  unfoldable pub can_view_asset : ℕ → Result DbError Bool
  can_view_asset asset_id =
      owned (can_query_laboratory_resource self) (pool.asset_laboratory asset_id)

  unfoldable pub can_manage_inventory_item : ℕ → Result DbError Bool
  can_manage_inventory_item inventory_item_id =
      owned (can_write_laboratory_resource self) (pool.inventory_item_laboratory inventory_item_id)

  unfoldable pub can_view_inventory_item : ℕ → Result DbError Bool
  can_view_inventory_item inventory_item_id =
      owned (can_query_laboratory_resource self) (pool.inventory_item_laboratory inventory_item_id)

  unfoldable pub can_manage_file_upload : ℕ → Result DbError Bool
  unfolding upload_allowed
  can_manage_file_upload upload_id = do
    row ← pool.file_upload upload_id
    ok (upload_allowed self row)

  unfoldable pub can_assign_file_upload : ℕ → Result DbError Bool
  unfolding upload_allowed pending
  can_assign_file_upload upload_id = do
    row ← pool.file_upload upload_id
    ok (upload_allowed self (pending row))

  unfoldable pub can_manage_attachment_assignment : ℕ → Result DbError Bool
  unfolding attachment_managed
  can_manage_attachment_assignment attachment_id =
      if is_guest self
      then ok false
      else do row ← pool.attachment_assignment attachment_id; ok (attachment_managed self row)

  unfoldable pub can_view_attachment_assignment : ℕ → Result DbError Bool
  unfolding attachment_viewed
  can_view_attachment_assignment attachment_id = do
    row ← pool.attachment_assignment attachment_id
    ok (attachment_viewed self row)

  unfoldable pub can_manage_label_printer : ℕ → Result DbError Bool
  can_manage_label_printer printer_id =
      owned (can_manage_label_printers self) (pool.label_printer_laboratory printer_id)

  unfoldable pub can_use_label_printer : ℕ → Result DbError Bool
  can_use_label_printer printer_id =
      owned (can_use_label_printers self) (pool.label_printer_laboratory printer_id)
