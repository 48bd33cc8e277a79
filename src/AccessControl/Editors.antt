-- ===== src/AccessControl/Editors.antt =====
-- Nobody edits what they cannot read.
use lab_inventory.Common.{ℕ, ◌≡◌, Bool, true, false, arith, ok}
use lab_inventory.AccessControl.{
  Actor, Database, ResourceType, laboratory, unit_of_measure, location, asset, inventory_item,
  asset_category, asset_parameter, attachment_assignment, label_printer, read, update,
}
use lab_inventory.AccessControl.Actors.{
  can_write_laboratory_resource, can_manage_units, can_query_laboratory_resource,
  can_manage_label_printers, can_use_label_printers,
}
use lab_inventory.AccessControl.Views.{
  can_manage_unit, can_view_unit, can_manage_location, can_view_location, can_manage_asset_category,
  can_view_asset_category, can_manage_asset_parameter, can_view_asset_parameter, can_manage_asset,
  can_view_asset, can_manage_inventory_item, can_view_inventory_item,
  can_manage_attachment_assignment, can_view_attachment_assignment, can_manage_label_printer,
  can_use_label_printer,
}
use lab_inventory.AccessControl.Permissions.{validate_permission}

-- The resources that are rows of a laboratory with a permission to update and one to read.
abbrev pub is_editable : ResourceType → Bool
is_editable laboratory = true
is_editable unit_of_measure = true
is_editable location = true
is_editable asset = true
is_editable inventory_item = true
is_editable asset_category = true
is_editable asset_parameter = true
is_editable attachment_assignment = true
is_editable label_printer = true
is_editable _ = false

-- On laboratories, units, locations, assets, inventory items, categories, parameters, attachment
-- assignments and label printers, whoever may update a resource may also read it.
pub update-read :
    (pool : Database) (actor : Actor) (r : ResourceType) (id : ℕ)
    → is_editable r ≡ true
    → validate_permission pool actor r (update id) ≡ ok true
    → validate_permission pool actor r (read id) ≡ ok true
unfolding validate_permission can_manage_units can_manage_unit can_view_unit can_manage_location
    can_view_location can_query_laboratory_resource can_manage_asset can_view_asset
    can_write_laboratory_resource can_manage_inventory_item can_view_inventory_item
    can_manage_asset_category can_view_asset_category can_manage_asset_parameter
    can_view_asset_parameter can_manage_attachment_assignment can_view_attachment_assignment
    can_manage_label_printers can_manage_label_printer can_use_label_printers can_use_label_printer
update-read pool actor laboratory id e h = ground arith
update-read pool actor _ id e h = ground arith
