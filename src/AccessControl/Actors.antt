-- ===== src/AccessControl/Actors.antt =====
-- backend/src/access_control.rs: the predicates of `Actor` that need no database, and
-- `LaboratoryContext`.
use lab_inventory.Common.{
  ℕ, String, Bool, true, false, not, ◌&&◌, ◌||◌, Option, none, some, if◌then◌else◌, Result, ok, err,
}
use lab_inventory.AccessControl.{
  UserType, root, super_admin, lab_admin, user, guest, Actor, UserRole, is_system_type, is_some,
  lab_is,
}

abbrev pub type_is_admin : UserType → Bool
type_is_admin root = true
type_is_admin super_admin = true
type_is_admin lab_admin = true
type_is_admin _ = false

abbrev pub type_is_lab_admin : UserType → Bool
type_is_lab_admin lab_admin = true
type_is_lab_admin _ = false

abbrev pub type_is_user : UserType → Bool
type_is_user user = true
type_is_user _ = false

abbrev pub type_is_super_admin : UserType → Bool
type_is_super_admin super_admin = true
type_is_super_admin _ = false

abbrev pub type_is_root : UserType → Bool
type_is_root root = true
type_is_root _ = false

abbrev pub type_is_guest : UserType → Bool
type_is_guest guest = true
type_is_guest _ = false

abbrev pub is_guest : Actor → Bool
is_guest self = type_is_guest self.user_type

abbrev pub is_admin : Actor → Bool
is_admin self = type_is_admin self.user_type

abbrev pub is_system_admin : Actor → Bool
is_system_admin self = is_system_type self.user_type

abbrev pub is_lab_admin : Actor → Bool
is_lab_admin self = type_is_lab_admin self.user_type

abbrev pub is_regular_user : Actor → Bool
is_regular_user self = type_is_user self.user_type

abbrev pub is_super_admin : Actor → Bool
is_super_admin self = type_is_super_admin self.user_type

abbrev pub is_root : Actor → Bool
is_root self = type_is_root self.user_type

-- `if let Some(lab_id) = of { return mine == Some(lab_id) } else { return false }`
abbrev pub same_lab : Option ℕ → Option ℕ → Bool
same_lab mine none = false
same_lab mine (some lab_id) = lab_is mine lab_id

unfoldable pub can_manage_user : Actor → UserRole → Bool
can_manage_user self target_user =
    if not (is_admin self)
    then false
    else if is_lab_admin self
    then (if is_system_type target_user.user_type
        then false
        else same_lab self.laboratory_id target_user.laboratory_id)
    else if is_super_admin self
    then not (type_is_root target_user.user_type)
    else is_root self

unfoldable pub can_create_guest_registration_code : Actor → ℕ → Bool
can_create_guest_registration_code self laboratory_id =
    (type_is_lab_admin self.user_type || type_is_user self.user_type)
    && lab_is self.laboratory_id laboratory_id

unfoldable pub can_write_laboratory_resource : Actor → ℕ → Bool
can_write_laboratory_resource self laboratory_id =
    if is_guest self then false else is_system_admin self || lab_is self.laboratory_id laboratory_id

unfoldable pub can_browse_laboratory_resource : Actor → ℕ → Bool
can_browse_laboratory_resource self laboratory_id =
    is_system_admin self || lab_is self.laboratory_id laboratory_id

unfoldable pub can_browse_laboratory_internal_resource : Actor → ℕ → Bool
can_browse_laboratory_internal_resource self laboratory_id =
    is_system_admin self || (lab_is self.laboratory_id laboratory_id && not (is_guest self))

unfoldable pub can_manage_units : Actor → ℕ → Bool
can_manage_units self laboratory_id =
    is_system_admin self || (is_lab_admin self && lab_is self.laboratory_id laboratory_id)

unfoldable pub can_read_laboratory_resource : Actor → ℕ → Bool
can_read_laboratory_resource self laboratory_id =
    is_root self || is_super_admin self || lab_is self.laboratory_id laboratory_id

unfoldable pub can_query_laboratory_resource : Actor → ℕ → Bool
unfolding can_read_laboratory_resource
can_query_laboratory_resource self laboratory_id = can_read_laboratory_resource self laboratory_id

unfoldable pub can_browse_laboratories : Actor → Bool
can_browse_laboratories self =
    is_root self
    || is_super_admin self
    || ((is_lab_admin self || is_regular_user self) && is_some self.laboratory_id)

unfoldable pub can_manage_federation : Actor → ℕ → Bool
can_manage_federation self laboratory_id =
    is_lab_admin self && lab_is self.laboratory_id laboratory_id

unfoldable pub can_read_federation : Actor → ℕ → Bool
can_read_federation self laboratory_id =
    (is_lab_admin self || is_regular_user self) && lab_is self.laboratory_id laboratory_id

unfoldable pub can_manage_label_printers : Actor → ℕ → Bool
can_manage_label_printers self laboratory_id =
    is_system_admin self || (is_lab_admin self && lab_is self.laboratory_id laboratory_id)

unfoldable pub can_use_label_printers : Actor → ℕ → Bool
unfolding can_browse_laboratory_internal_resource
can_use_label_printers self laboratory_id =
    can_browse_laboratory_internal_resource self laboratory_id

pub record LaboratoryContext : Type 0 where
  pub actor : Actor
  pub laboratory_id : ℕ

-- `LaboratoryContext::authorization_actor`
unfoldable pub authorization_actor : LaboratoryContext → Actor
authorization_actor self =
    if is_system_admin self.actor
    then record {
      user_id = self.actor.user_id;
      user_type = lab_admin;
      laboratory_id = some self.laboratory_id;
    }
    else self.actor

-- The responses with which extraction fails: 401, 403 and 400.
pub data Rejection : Type 0 where
  authentication_required system_admin_required laboratory_user_required : Rejection
  bad_laboratory_id : Rejection

-- The route names a laboratory.
abbrev named_laboratory : Actor → Option ℕ → Result Rejection LaboratoryContext
named_laboratory actor none =
    if not (is_system_admin actor) then err system_admin_required else err bad_laboratory_id
named_laboratory actor (some laboratory_id) =
    if not (is_system_admin actor)
    then err system_admin_required
    else ok (record { actor = actor; laboratory_id = laboratory_id })

-- The route names none: the actor's own laboratory.
abbrev own_laboratory : Actor → Option ℕ → Result Rejection LaboratoryContext
own_laboratory actor none = err laboratory_user_required
own_laboratory actor (some laboratory_id) =
    if not (is_system_admin actor)
    then ok (record { actor = actor; laboratory_id = laboratory_id })
    else err laboratory_user_required

abbrev context_of : (String → Option ℕ) → Actor → Option String → Result Rejection LaboratoryContext
context_of parse_uuid actor none = own_laboratory actor actor.laboratory_id
context_of parse_uuid actor (some raw) = named_laboratory actor (parse_uuid raw)

-- `LaboratoryContext::from_request`: the actor of the request's extensions, the route parameter,
-- and `Uuid::parse_str`.
unfoldable pub from_request :
    (String → Option ℕ) → Option Actor → Option String → Result Rejection LaboratoryContext
from_request parse_uuid none raw_laboratory_id = err authentication_required
from_request parse_uuid (some actor) raw_laboratory_id =
    context_of parse_uuid actor raw_laboratory_id
