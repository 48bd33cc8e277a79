-- ===== src/AccessControl.antt =====
-- backend/src/access_control.rs, and the roles of backend/src/domain/{user_type,user_role}.rs:
-- who may do what. Uuids are native numbers. The database is an argument: for each `SELECT` of the
-- source, the row that it gives for an id, or an error. Errors of `anyhow` are one type.
pub mod Actors
pub mod Views
pub mod Permissions
pub mod Targets
pub mod Isolation
pub mod Roles
pub mod Guests
pub mod Editors
mod Tests
use text.Mathlib.Text.{◌==◌ as str_eq}
use lab_inventory.Common.{
  ℕ, String, Bool, true, false, not, ◌&&◌, ◌||◌, Option, none, some, ◌==◌, if◌then◌else◌, Result,
  ok, err,
}

pub data UserType : Type 0 where
  root super_admin lab_admin user guest : UserType

-- `UserType::parse`
unfoldable pub parse_user_type : String → Option UserType
parse_user_type s =
    if str_eq s "root"
    then some root
    else if str_eq s "super_admin"
    then some super_admin
    else if str_eq s "lab_admin"
    then some lab_admin
    else if str_eq s "user"
    then some user
    else if str_eq s "guest"
    then some guest
    else none

-- `Display for UserType`
unfoldable pub user_type_name : UserType → String
user_type_name root = "root"
user_type_name super_admin = "super_admin"
user_type_name lab_admin = "lab_admin"
user_type_name user = "user"
user_type_name guest = "guest"

pub record Actor : Type 0 where
  pub user_id : ℕ
  pub user_type : UserType
  pub laboratory_id : Option ℕ

pub record UserRole : Type 0 where
  pub user_type : UserType
  pub laboratory_id : Option ℕ

-- `matches!(user_type, UserType::Root | UserType::SuperAdmin)`
abbrev pub is_system_type : UserType → Bool
is_system_type root = true
is_system_type super_admin = true
is_system_type _ = false

abbrev pub is_some : Option ℕ → Bool
is_some none = false
is_some (some a) = true

-- `UserRole::new`: the error is the type that lacks a laboratory.
unfoldable pub new_role : UserType → Option ℕ → Result UserType UserRole
new_role user_type laboratory_id =
    if not (is_system_type user_type) && not (is_some laboratory_id)
    then err user_type
    else ok (record { user_type = user_type; laboratory_id = laboratory_id })

-- `self.laboratory_id == Some(laboratory_id)`
abbrev pub lab_is : Option ℕ → ℕ → Bool
lab_is none laboratory_id = false
lab_is (some l) laboratory_id = l == laboratory_id

pub data DbError : Type 0 where
  query_failed null_column bad_user_type : DbError

pub record FileUploadRow : Type 0 where
  pub laboratory_id : ℕ
  pub uploaded_by_user_id : ℕ
  pub is_consumed : Bool
  pub is_expired : Bool

pub record AttachmentAssignmentRow : Type 0 where
  pub laboratory_id : ℕ
  pub is_public : Bool

-- A row of `v_actors`, whose columns may be NULL.
pub record ActorRow : Type 0 where
  pub user_id : Option ℕ
  pub user_type_name : Option String
  pub laboratory_id : Option ℕ

-- `fetch_optional` of the laboratory of a row, table by table, and of the other rows.
pub record Database : Type 0 where
  pub unit_laboratory : ℕ → Result DbError (Option ℕ)
  pub location_laboratory : ℕ → Result DbError (Option ℕ)
  pub asset_category_laboratory : ℕ → Result DbError (Option ℕ)
  pub asset_parameter_laboratory : ℕ → Result DbError (Option ℕ)
  pub asset_laboratory : ℕ → Result DbError (Option ℕ)
  pub inventory_item_laboratory : ℕ → Result DbError (Option ℕ)
  pub label_printer_laboratory : ℕ → Result DbError (Option ℕ)
  pub file_upload : ℕ → Result DbError (Option FileUploadRow)
  pub attachment_assignment : ℕ → Result DbError (Option AttachmentAssignmentRow)
  pub actor_row : ℕ → Result DbError (Option ActorRow)

pub data ResourceType : Type 0 where
  laboratory user_account guest_registration_code unit_of_measure location asset : ResourceType
  inventory_item asset_category asset_parameter attachment_assignment : ResourceType
  file_upload_resource federation label_printer : ResourceType

pub data Action : Type 0 where
  assign create : ℕ → Action
  create_user : UserRole → Action
  delete : ℕ → Action
  delete_user : UserRole → Action
  read browse browse_internal update : ℕ → Action
  update_user : UserRole → UserRole → Action
