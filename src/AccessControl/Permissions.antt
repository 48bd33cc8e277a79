-- ===== src/AccessControl/Permissions.antt =====
-- backend/src/access_control.rs: `validate_permission`. One function for each resource type, by the
-- actions that it answers; any other action is refused.
use lab_inventory.Common.{ℕ, Bool, true, false, ◌&&◌, ◌||◌, Result, ok}
use lab_inventory.AccessControl.{
  Actor, Database, DbError, ResourceType, Action, laboratory, user_account, guest_registration_code,
  unit_of_measure, location, asset, inventory_item, asset_category, asset_parameter,
  attachment_assignment, file_upload_resource, federation, label_printer, assign, create,
  create_user, delete, delete_user, read, browse, browse_internal, update, update_user, lab_is,
}
use lab_inventory.AccessControl.Actors.{
  is_system_admin, is_lab_admin, can_manage_user, can_create_guest_registration_code,
  can_write_laboratory_resource, can_browse_laboratory_resource,
  can_browse_laboratory_internal_resource, can_manage_units, can_read_laboratory_resource,
  can_query_laboratory_resource, can_browse_laboratories, can_manage_federation,
  can_read_federation, can_manage_label_printers, can_use_label_printers,
}
use lab_inventory.AccessControl.Views.{
  can_view_user, can_manage_unit, can_view_unit, can_manage_location, can_view_location,
  can_manage_asset_category, can_view_asset_category, can_manage_asset_parameter,
  can_view_asset_parameter, can_manage_asset, can_view_asset, can_manage_inventory_item,
  can_view_inventory_item, can_manage_file_upload, can_assign_file_upload,
  can_manage_attachment_assignment, can_view_attachment_assignment, can_manage_label_printer,
  can_use_label_printer,
}

-- `actor.is_system_admin() || (actor.is_lab_admin() && actor.laboratory_id == Some(laboratory_id))`
abbrev pub administers : Actor → ℕ → Bool
administers actor laboratory_id =
    is_system_admin actor || (is_lab_admin actor && lab_is actor.laboratory_id laboratory_id)

module _ (pool : Database) (actor : Actor) where
  unfoldable pub laboratory_permission : Action → Result DbError Bool
  laboratory_permission (create l) = ok (is_system_admin actor)
  laboratory_permission (delete l) = ok (is_system_admin actor)
  laboratory_permission (read l) = ok (administers actor l)
  laboratory_permission (browse l) = ok (can_browse_laboratories actor)
  laboratory_permission (update l) = ok (administers actor l)
  laboratory_permission _ = ok false

  unfoldable pub user_permission : Action → Result DbError Bool
  user_permission (create_user user_role) = ok (can_manage_user actor user_role)
  user_permission (delete_user user_role) = ok (can_manage_user actor user_role)
  user_permission (read user_id) = can_view_user pool actor user_id
  user_permission (update_user target_user_role update_user_role) =
      ok (can_manage_user actor target_user_role && can_manage_user actor update_user_role)
  user_permission _ = ok false

  unfoldable pub code_permission : Action → Result DbError Bool
  code_permission (create l) = ok (can_create_guest_registration_code actor l)
  code_permission _ = ok false

  unfoldable pub unit_permission : Action → Result DbError Bool
  unit_permission (create l) = ok (can_manage_units actor l)
  unit_permission (delete id) = can_manage_unit pool actor id
  unit_permission (read id) = can_view_unit pool actor id
  unit_permission (browse l) = ok (can_browse_laboratory_resource actor l)
  unit_permission (update id) = can_manage_unit pool actor id
  unit_permission _ = ok false

  unfoldable pub printer_permission : Action → Result DbError Bool
  printer_permission (create l) = ok (can_manage_label_printers actor l)
  printer_permission (update id) = can_manage_label_printer pool actor id
  printer_permission (delete id) = can_manage_label_printer pool actor id
  printer_permission (browse l) = ok (can_use_label_printers actor l)
  printer_permission (read id) = can_use_label_printer pool actor id
  printer_permission _ = ok false

  unfoldable pub location_permission : Action → Result DbError Bool
  location_permission (create l) = ok (can_write_laboratory_resource actor l)
  location_permission (delete id) = can_manage_location pool actor id
  location_permission (read id) = can_view_location pool actor id
  location_permission (browse l) = ok (can_query_laboratory_resource actor l)
  location_permission (update id) = can_manage_location pool actor id
  location_permission _ = ok false

  unfoldable pub asset_permission : Action → Result DbError Bool
  asset_permission (create l) = ok (can_write_laboratory_resource actor l)
  asset_permission (delete id) = can_manage_asset pool actor id
  asset_permission (read id) = can_view_asset pool actor id
  asset_permission (browse l) = ok (can_query_laboratory_resource actor l)
  asset_permission (browse_internal l) = ok (can_read_laboratory_resource actor l)
  asset_permission (update id) = can_manage_asset pool actor id
  asset_permission _ = ok false

  unfoldable pub item_permission : Action → Result DbError Bool
  item_permission (create l) = ok (can_write_laboratory_resource actor l)
  item_permission (delete id) = can_manage_inventory_item pool actor id
  item_permission (read id) = can_view_inventory_item pool actor id
  item_permission (browse l) = ok (can_query_laboratory_resource actor l)
  item_permission (browse_internal l) = ok (can_read_laboratory_resource actor l)
  item_permission (update id) = can_manage_inventory_item pool actor id
  item_permission _ = ok false

  unfoldable pub category_permission : Action → Result DbError Bool
  category_permission (create l) = ok (can_write_laboratory_resource actor l)
  category_permission (delete id) = can_manage_asset_category pool actor id
  category_permission (read id) = can_view_asset_category pool actor id
  category_permission (browse l) = ok (can_query_laboratory_resource actor l)
  category_permission (update id) = can_manage_asset_category pool actor id
  category_permission _ = ok false

  unfoldable pub parameter_permission : Action → Result DbError Bool
  parameter_permission (create l) = ok (can_write_laboratory_resource actor l)
  parameter_permission (delete id) = can_manage_asset_parameter pool actor id
  parameter_permission (read id) = can_view_asset_parameter pool actor id
  parameter_permission (browse l) = ok (can_query_laboratory_resource actor l)
  parameter_permission (update id) = can_manage_asset_parameter pool actor id
  parameter_permission _ = ok false

  unfoldable pub upload_permission : Action → Result DbError Bool
  upload_permission (create l) = ok (can_write_laboratory_resource actor l)
  upload_permission (delete id) = can_manage_file_upload pool actor id
  upload_permission (read id) = ok true
  upload_permission (browse l) = ok (can_browse_laboratory_resource actor l)
  upload_permission (assign id) = can_assign_file_upload pool actor id
  upload_permission _ = ok false

  unfoldable pub attachment_permission : Action → Result DbError Bool
  attachment_permission (create l) = ok (can_write_laboratory_resource actor l)
  attachment_permission (delete id) = can_manage_attachment_assignment pool actor id
  attachment_permission (read id) = can_view_attachment_assignment pool actor id
  attachment_permission (browse l) = ok (can_query_laboratory_resource actor l)
  attachment_permission (browse_internal l) = ok (can_browse_laboratory_internal_resource actor l)
  attachment_permission (update id) = can_manage_attachment_assignment pool actor id
  attachment_permission _ = ok false

  unfoldable pub federation_permission : Action → Result DbError Bool
  federation_permission (create l) = ok (can_manage_federation actor l)
  federation_permission (update l) = ok (can_manage_federation actor l)
  federation_permission (delete l) = ok (can_manage_federation actor l)
  federation_permission (browse_internal l) = ok (can_manage_federation actor l)
  federation_permission (browse l) = ok (can_read_federation actor l)
  federation_permission _ = ok false

  unfoldable pub validate_permission : ResourceType → Action → Result DbError Bool
  unfolding laboratory_permission user_permission code_permission unit_permission printer_permission
      location_permission asset_permission item_permission category_permission parameter_permission
      upload_permission attachment_permission federation_permission
  validate_permission laboratory action = laboratory_permission action
  validate_permission user_account action = user_permission action
  validate_permission guest_registration_code action = code_permission action
  validate_permission unit_of_measure action = unit_permission action
  validate_permission label_printer action = printer_permission action
  validate_permission location action = location_permission action
  validate_permission asset action = asset_permission action
  validate_permission inventory_item action = item_permission action
  validate_permission asset_category action = category_permission action
  validate_permission asset_parameter action = parameter_permission action
  validate_permission file_upload_resource action = upload_permission action
  validate_permission attachment_assignment action = attachment_permission action
  validate_permission federation action = federation_permission action
