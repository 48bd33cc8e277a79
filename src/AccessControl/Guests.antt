-- ===== src/AccessControl/Guests.antt =====
-- What a guest may do: nothing but read, uploads aside, which are judged by who uploaded them.
use lab_inventory.Common.{◌≡◌, ◌≢◌, Bool, true, false, arith, ok}
use lab_inventory.AccessControl.{
  Actor, Database, ResourceType, Action, laboratory, user_account, guest_registration_code,
  unit_of_measure, location, asset, inventory_item, asset_category, asset_parameter,
  attachment_assignment, file_upload_resource, federation, label_printer, create, create_user,
  delete, delete_user, update, update_user,
}
use lab_inventory.AccessControl.Actors.{
  is_guest, can_manage_user, can_create_guest_registration_code, can_write_laboratory_resource,
  can_manage_units, can_manage_federation, can_manage_label_printers,
}
use lab_inventory.AccessControl.Views.{
  can_manage_unit, can_manage_location, can_manage_asset_category, can_manage_asset_parameter,
  can_manage_asset, can_manage_inventory_item, can_manage_attachment_assignment,
  can_manage_label_printer,
}
use lab_inventory.AccessControl.Permissions.{
  validate_permission, laboratory_permission, user_permission, code_permission, unit_permission,
  printer_permission, location_permission, asset_permission, item_permission, category_permission,
  parameter_permission, attachment_permission, federation_permission,
}

-- The actions that create, update or delete something.
abbrev pub is_write : Action → Bool
is_write (create l) = true
is_write (update id) = true
is_write (delete id) = true
is_write (create_user role) = true
is_write (delete_user role) = true
is_write (update_user target updated) = true
is_write _ = false

abbrev pub is_upload : ResourceType → Bool
is_upload file_upload_resource = true
is_upload _ = false

module _ (pool : Database) (actor : Actor) (guest_actor : is_guest actor ≡ true) where
  laboratory_guest : (a : Action) → is_write a ≡ true → laboratory_permission pool actor a ≢ ok true
  unfolding laboratory_permission
  laboratory_guest (create l) w h = ground arith
  laboratory_guest _ w h = ground arith

  user_guest : (a : Action) → is_write a ≡ true → user_permission pool actor a ≢ ok true
  unfolding user_permission can_manage_user
  user_guest (create l) w h = ground arith
  user_guest _ w h = ground arith

  code_guest : (a : Action) → is_write a ≡ true → code_permission pool actor a ≢ ok true
  unfolding code_permission can_create_guest_registration_code
  code_guest (create l) w h = ground arith
  code_guest _ w h = ground arith

  unit_guest : (a : Action) → is_write a ≡ true → unit_permission pool actor a ≢ ok true
  unfolding unit_permission can_manage_units can_manage_unit
  unit_guest (create l) w h = ground arith
  unit_guest _ w h = ground arith

  printer_guest : (a : Action) → is_write a ≡ true → printer_permission pool actor a ≢ ok true
  unfolding printer_permission can_manage_label_printers can_manage_label_printer
  printer_guest (create l) w h = ground arith
  printer_guest _ w h = ground arith

  location_guest : (a : Action) → is_write a ≡ true → location_permission pool actor a ≢ ok true
  unfolding location_permission can_write_laboratory_resource can_manage_location
  location_guest (create l) w h = ground arith
  location_guest _ w h = ground arith

  asset_guest : (a : Action) → is_write a ≡ true → asset_permission pool actor a ≢ ok true
  unfolding asset_permission can_write_laboratory_resource can_manage_asset
  asset_guest (create l) w h = ground arith
  asset_guest _ w h = ground arith

  item_guest : (a : Action) → is_write a ≡ true → item_permission pool actor a ≢ ok true
  unfolding item_permission can_write_laboratory_resource can_manage_inventory_item
  item_guest (create l) w h = ground arith
  item_guest _ w h = ground arith

  category_guest : (a : Action) → is_write a ≡ true → category_permission pool actor a ≢ ok true
  unfolding category_permission can_write_laboratory_resource can_manage_asset_category
  category_guest (create l) w h = ground arith
  category_guest _ w h = ground arith

  parameter_guest : (a : Action) → is_write a ≡ true → parameter_permission pool actor a ≢ ok true
  unfolding parameter_permission can_write_laboratory_resource can_manage_asset_parameter
  parameter_guest (create l) w h = ground arith
  parameter_guest _ w h = ground arith

  attachment_guest : (a : Action) → is_write a ≡ true → attachment_permission pool actor a ≢ ok true
  unfolding attachment_permission can_write_laboratory_resource can_manage_attachment_assignment
  attachment_guest (create l) w h = ground arith
  attachment_guest _ w h = ground arith

  federation_guest : (a : Action) → is_write a ≡ true → federation_permission pool actor a ≢ ok true
  unfolding federation_permission can_manage_federation
  federation_guest (create l) w h = ground arith
  federation_guest _ w h = ground arith

  -- A guest is granted no action that creates, updates or deletes something, on any resource but
  -- uploads.
  pub validate_permission-guest :
      (r : ResourceType) (a : Action)
      → is_write a ≡ true
      → is_upload r ≡ false
      → validate_permission pool actor r a ≢ ok true
  unfolding validate_permission
  validate_permission-guest file_upload_resource a w u h = cc
  validate_permission-guest laboratory a w u h = laboratory_guest a w h
  validate_permission-guest user_account a w u h = user_guest a w h
  validate_permission-guest guest_registration_code a w u h = code_guest a w h
  validate_permission-guest unit_of_measure a w u h = unit_guest a w h
  validate_permission-guest label_printer a w u h = printer_guest a w h
  validate_permission-guest location a w u h = location_guest a w h
  validate_permission-guest asset a w u h = asset_guest a w h
  validate_permission-guest inventory_item a w u h = item_guest a w h
  validate_permission-guest asset_category a w u h = category_guest a w h
  validate_permission-guest asset_parameter a w u h = parameter_guest a w h
  validate_permission-guest attachment_assignment a w u h = attachment_guest a w h
  validate_permission-guest federation a w u h = federation_guest a w h
