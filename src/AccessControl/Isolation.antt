-- ===== src/AccessControl/Isolation.antt =====
-- Laboratories are kept apart: what `validate_permission` grants to an actor that is no system
-- administrator concerns the actor's own laboratory, but for what IsShared lists.
use mathlib.Core.Option.{some-injective}
use lab_inventory.Common.{
  ℕ, ◌≡◌, sym, ◌∙◌, String, true, false, Option, none, some, arith, Result, ok, err, ◌>>=◌, ◌⊎◌,
  inl, inr,
}
use lab_inventory.AccessControl.{
  Actor, Database, DbError, FileUploadRow, browse, read, delete, assign, create_user, delete_user,
  update_user, ResourceType, Action, laboratory, user_account, guest_registration_code,
  unit_of_measure, location, asset, inventory_item, asset_category, asset_parameter,
  attachment_assignment, file_upload_resource, federation, label_printer, create,
}
use lab_inventory.AccessControl.Actors.{
  is_system_admin, LaboratoryContext, authorization_actor, from_request,
  can_write_laboratory_resource, can_browse_laboratory_resource,
  can_browse_laboratory_internal_resource, can_manage_units, can_query_laboratory_resource,
  can_create_guest_registration_code, can_manage_federation, can_read_federation,
  can_manage_label_printers, can_use_label_printers, can_manage_user,
}
use lab_inventory.AccessControl.Views.{
  can_manage_unit, can_view_unit, can_manage_location, can_view_location, can_manage_asset_category,
  can_view_asset_category, can_manage_asset_parameter, can_view_asset_parameter, can_manage_asset,
  can_view_asset, can_manage_inventory_item, can_view_inventory_item, can_manage_file_upload,
  can_assign_file_upload, can_manage_attachment_assignment, can_view_attachment_assignment,
  can_manage_label_printer, can_use_label_printer, can_view_user, get_actor, view_of_actor,
  upload_allowed, pending,
}
use lab_inventory.AccessControl.Permissions.{
  validate_permission, user_permission, laboratory_permission, code_permission, unit_permission,
  printer_permission, location_permission, asset_permission, item_permission, category_permission,
  parameter_permission, upload_permission, attachment_permission, federation_permission,
}
use lab_inventory.AccessControl.Targets.{
  target_laboratory, user_lab, upload_lab, is_closed, IsShared,
}

module _ (pool : Database) (actor : Actor) (l : ℕ)
    (no_system_admin : is_system_admin actor ≡ false) where
  laboratory_isolation :
      (a : Action)
      → laboratory_permission pool actor a ≡ ok true
      → target_laboratory pool laboratory a ≡ some l
      → (actor.laboratory_id ≡ some l) ⊎ IsShared pool actor laboratory a
  unfolding laboratory_permission
  laboratory_isolation (create m) h t = inl (ground arith)
  laboratory_isolation (browse m) h t = inr tt
  laboratory_isolation _ h t = inl (ground arith)

  view_isolation :
      (id : ℕ) (target : Result DbError (Option Actor))
      → (target >>= λ found. ok (view_of_actor actor id found)) ≡ ok true
      → user_lab target ≡ some l
      → (actor.laboratory_id ≡ some l) ⊎ (actor.user_id ≡ id)
  unfolding view_of_actor
  view_isolation id (err e) h t = cc
  view_isolation id (ok none) h t = cc
  view_isolation id (ok (some found)) h t = ground arith

  user_isolation :
      (a : Action)
      → user_permission pool actor a ≡ ok true
      → target_laboratory pool user_account a ≡ some l
      → (actor.laboratory_id ≡ some l) ⊎ IsShared pool actor user_account a
  unfolding user_permission can_manage_user can_view_user
  user_isolation (create_user role) h t = inl (ground arith)
  user_isolation (delete_user role) h t = inl (ground arith)
  user_isolation (update_user role updated) h t = inl (ground arith)
  user_isolation (read id) h t = view_isolation id (get_actor pool id) h t
  user_isolation _ h t = cc

  code_isolation :
      (a : Action)
      → code_permission pool actor a ≡ ok true
      → target_laboratory pool guest_registration_code a ≡ some l
      → actor.laboratory_id ≡ some l
  unfolding code_permission can_create_guest_registration_code
  code_isolation (create m) h t = ground arith
  code_isolation _ h t = ground arith

  unit_isolation :
      (a : Action)
      → unit_permission pool actor a ≡ ok true
      → target_laboratory pool unit_of_measure a ≡ some l
      → actor.laboratory_id ≡ some l
  unfolding unit_permission can_manage_units can_browse_laboratory_resource can_manage_unit
      can_view_unit
  unit_isolation (create m) h t = ground arith
  unit_isolation _ h t = ground arith

  printer_isolation :
      (a : Action)
      → printer_permission pool actor a ≡ ok true
      → target_laboratory pool label_printer a ≡ some l
      → actor.laboratory_id ≡ some l
  unfolding printer_permission can_manage_label_printers can_use_label_printers
      can_manage_label_printer can_use_label_printer
  printer_isolation (create m) h t = ground arith
  printer_isolation _ h t = ground arith

  location_isolation :
      (a : Action)
      → location_permission pool actor a ≡ ok true
      → target_laboratory pool location a ≡ some l
      → actor.laboratory_id ≡ some l
  unfolding location_permission can_write_laboratory_resource can_query_laboratory_resource
      can_manage_location can_view_location
  location_isolation (create m) h t = ground arith
  location_isolation _ h t = ground arith

  asset_isolation :
      (a : Action)
      → asset_permission pool actor a ≡ ok true
      → target_laboratory pool asset a ≡ some l
      → actor.laboratory_id ≡ some l
  unfolding asset_permission can_write_laboratory_resource can_query_laboratory_resource
      can_manage_asset can_view_asset
  asset_isolation (create m) h t = ground arith
  asset_isolation _ h t = ground arith

  item_isolation :
      (a : Action)
      → item_permission pool actor a ≡ ok true
      → target_laboratory pool inventory_item a ≡ some l
      → actor.laboratory_id ≡ some l
  unfolding item_permission can_write_laboratory_resource can_query_laboratory_resource
      can_manage_inventory_item can_view_inventory_item
  item_isolation (create m) h t = ground arith
  item_isolation _ h t = ground arith

  category_isolation :
      (a : Action)
      → category_permission pool actor a ≡ ok true
      → target_laboratory pool asset_category a ≡ some l
      → actor.laboratory_id ≡ some l
  unfolding category_permission can_write_laboratory_resource can_query_laboratory_resource
      can_manage_asset_category can_view_asset_category
  category_isolation (create m) h t = ground arith
  category_isolation _ h t = ground arith

  parameter_isolation :
      (a : Action)
      → parameter_permission pool actor a ≡ ok true
      → target_laboratory pool asset_parameter a ≡ some l
      → actor.laboratory_id ≡ some l
  unfolding parameter_permission can_write_laboratory_resource can_query_laboratory_resource
      can_manage_asset_parameter can_view_asset_parameter
  parameter_isolation (create m) h t = ground arith
  parameter_isolation _ h t = ground arith

  managed_isolation :
      (query : Result DbError (Option FileUploadRow))
      → (query >>= λ row. ok (upload_allowed actor row)) ≡ ok true
      → upload_lab query ≡ some l
      → actor.laboratory_id ≡ some l
  unfolding upload_allowed
  managed_isolation (err e) h t = cc
  managed_isolation (ok none) h t = cc
  managed_isolation (ok (some row)) h t = ground arith

  assigned_isolation :
      (query : Result DbError (Option FileUploadRow))
      → (query >>= λ row. ok (upload_allowed actor (pending row))) ≡ ok true
      → upload_lab query ≡ some l
      → (actor.laboratory_id ≡ some l) ⊎ (is_closed query ≡ true)
  unfolding upload_allowed pending
  assigned_isolation (err e) h t = cc
  assigned_isolation (ok none) h t = cc
  assigned_isolation (ok (some row)) h t = ground arith

  upload_isolation :
      (a : Action)
      → upload_permission pool actor a ≡ ok true
      → target_laboratory pool file_upload_resource a ≡ some l
      → (actor.laboratory_id ≡ some l) ⊎ IsShared pool actor file_upload_resource a
  unfolding upload_permission can_write_laboratory_resource can_browse_laboratory_resource
      can_manage_file_upload can_assign_file_upload
  upload_isolation (create m) h t = inl (ground arith)
  upload_isolation (browse m) h t = inl (ground arith)
  upload_isolation (read id) h t = inr tt
  upload_isolation (delete id) h t = inl (managed_isolation (pool.file_upload id) h t)
  upload_isolation (assign id) h t = assigned_isolation (pool.file_upload id) h t
  upload_isolation _ h t = cc

  attachment_isolation :
      (a : Action)
      → attachment_permission pool actor a ≡ ok true
      → target_laboratory pool attachment_assignment a ≡ some l
      → actor.laboratory_id ≡ some l
  unfolding attachment_permission can_write_laboratory_resource can_query_laboratory_resource
      can_browse_laboratory_internal_resource can_manage_attachment_assignment
      can_view_attachment_assignment
  attachment_isolation (create m) h t = ground arith
  attachment_isolation _ h t = ground arith

  federation_isolation :
      (a : Action)
      → federation_permission pool actor a ≡ ok true
      → target_laboratory pool federation a ≡ some l
      → actor.laboratory_id ≡ some l
  unfolding federation_permission can_manage_federation can_read_federation
  federation_isolation (create m) h t = ground arith
  federation_isolation _ h t = ground arith

  -- What is granted to an actor that is no system administrator, on a user or a resource that has a
  -- laboratory, concerns the actor's own laboratory, with four exceptions: to browse the laboratories,
  -- to read an upload, to assign an upload that is consumed or expired, and to read one's own account.
  -- An update of a user is taken on the laboratory of the role before it.
  pub validate_permission_isolated :
      (r : ResourceType) (a : Action)
      → validate_permission pool actor r a ≡ ok true
      → target_laboratory pool r a ≡ some l
      → (actor.laboratory_id ≡ some l) ⊎ IsShared pool actor r a
  unfolding validate_permission
  validate_permission_isolated user_account a h t = user_isolation a h t
  validate_permission_isolated laboratory a h t = laboratory_isolation a h t
  validate_permission_isolated file_upload_resource a h t = upload_isolation a h t
  validate_permission_isolated guest_registration_code a h t = inl (code_isolation a h t)
  validate_permission_isolated unit_of_measure a h t = inl (unit_isolation a h t)
  validate_permission_isolated label_printer a h t = inl (printer_isolation a h t)
  validate_permission_isolated location a h t = inl (location_isolation a h t)
  validate_permission_isolated asset a h t = inl (asset_isolation a h t)
  validate_permission_isolated inventory_item a h t = inl (item_isolation a h t)
  validate_permission_isolated asset_category a h t = inl (category_isolation a h t)
  validate_permission_isolated asset_parameter a h t = inl (parameter_isolation a h t)
  validate_permission_isolated attachment_assignment a h t = inl (attachment_isolation a h t)
  validate_permission_isolated federation a h t = inl (federation_isolation a h t)

-- The actor that a context authorizes with is confined to the laboratory of the context.
pub authorization_actor_scoped :
    (parse_uuid : String → Option ℕ) (requester : Option Actor) (raw : Option String)
    (context : LaboratoryContext)
    → from_request parse_uuid requester raw ≡ ok context
    → (is_system_admin (authorization_actor context) ≡ false)
      × ((authorization_actor context).laboratory_id ≡ some context.laboratory_id)
unfolding from_request authorization_actor
authorization_actor_scoped parse_uuid none raw context h = cc
authorization_actor_scoped parse_uuid (some actor) none context h = ground arith
authorization_actor_scoped parse_uuid (some actor) (some raw) context h = ground arith

-- Every action that a request's laboratory context authorizes, on a user or a resource that has a
-- laboratory, concerns the laboratory of the context, with four exceptions: to browse the
-- laboratories, to read an upload, to assign an upload that is consumed or expired, and to read one's
-- own account. An update of a user is taken on the laboratory of the role before it.
pub from_request_isolated :
    (parse_uuid : String → Option ℕ) (requester : Option Actor) (raw : Option String)
    (context : LaboratoryContext) (pool : Database) (r : ResourceType) (a : Action) (l : ℕ)
    → from_request parse_uuid requester raw ≡ ok context
    → validate_permission pool (authorization_actor context) r a ≡ ok true
    → target_laboratory pool r a ≡ some l
    → (l ≡ context.laboratory_id) ⊎ IsShared pool (authorization_actor context) r a
from_request_isolated parse_uuid requester raw context pool r a l made granted target =
    let scoped = authorization_actor_scoped parse_uuid requester raw context made in
    elim (validate_permission_isolated pool (authorization_actor context) l scoped.0 r a granted
      target) [
        | inl own ↦ inl (some-injective l context.laboratory_id (sym own ∙ scoped.1))
        | inr shared ↦ inr shared
      ]
