-- ===== src/AccessControl/Roles.antt =====
-- Users and their roles: nobody manages users above their own rank, or outside their laboratory.
use lab_inventory.Common.{
  ℕ, ◌≤◌, ◌≡◌, ◌⊎◌, refl, true, Option, none, some, arith, ok, >>=-eq-ok, ok-injective,
}
use lab_inventory.AccessControl.{
  UserType, root, super_admin, lab_admin, user, guest, Actor, UserRole, Database, user_account,
  read, update_user, parse_user_type, user_type_name,
}
use lab_inventory.AccessControl.Actors.{is_system_admin, is_admin, is_guest, can_manage_user}
use lab_inventory.AccessControl.Views.{can_view_user, get_actor, view_of_actor}
use lab_inventory.AccessControl.Permissions.{validate_permission}

abbrev pub rank : UserType → ℕ
rank root = 4
rank super_admin = 3
rank lab_admin = 2
rank user = 1
rank guest = 0

-- The actor is an administrator who does not rank below the role; a laboratory administrator
-- shares the role's laboratory.
pub record IsUnder (actor : Actor) (role : UserRole) : Type 0 where
  pub admin : is_admin actor ≡ true
  pub ranked : rank role.user_type ≤ rank actor.user_type
  pub shared : (is_system_admin actor ≡ true) ⊎ (actor.laboratory_id ≡ role.laboratory_id)

can_manage_user-IsUnder :
    (actor : Actor) (role : UserRole) → can_manage_user actor role ≡ true → IsUnder actor role
unfolding can_manage_user
can_manage_user-IsUnder actor role h = ground arith

-- Updating a user is granted only to an administrator who ranks at least as high as the user does
-- before and after the update; a laboratory administrator must share the laboratory of both.
pub update_user-IsUnder :
    (pool : Database) (actor : Actor) (target updated : UserRole)
    → validate_permission pool actor user_account (update_user target updated) ≡ ok true
    → IsUnder actor target × IsUnder actor updated
unfolding validate_permission
update_user-IsUnder pool actor target updated h = (
  can_manage_user-IsUnder actor target (ground arith),
  can_manage_user-IsUnder actor updated (ground arith),
)

view_of_actor-guest :
    (actor : Actor) (user_id : ℕ) (target : Option Actor)
    → is_guest actor ≡ true
    → view_of_actor actor user_id target ≡ true
    → actor.user_id ≡ user_id
unfolding view_of_actor
view_of_actor-guest actor user_id none g h = cc
view_of_actor-guest actor user_id (some target) g h = ground arith

-- A guest is shown no user but itself.
pub read_user-guest :
    (pool : Database) (actor : Actor) (user_id : ℕ)
    → is_guest actor ≡ true
    → validate_permission pool actor user_account (read user_id) ≡ ok true
    → actor.user_id ≡ user_id
unfolding validate_permission can_view_user
read_user-guest pool actor user_id g h =
    let (target, found, seen) = >>=-eq-ok (get_actor pool user_id) _ h in
    view_of_actor-guest actor user_id target g (ok-injective seen)

-- The stored name of a user type parses back to the type.
pub parse_user_type-user_type_name :
    (user_type : UserType) → parse_user_type (user_type_name user_type) ≡ some user_type
unfolding parse_user_type user_type_name
parse_user_type-user_type_name root = refl
parse_user_type-user_type_name super_admin = refl
parse_user_type-user_type_name lab_admin = refl
parse_user_type-user_type_name user = refl
parse_user_type-user_type_name guest = refl
