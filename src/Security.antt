-- ===== src/Security.antt =====
-- Roles and ownership: `check_permission`, `check_ownership` and `RoleChecker` of
-- app/core/security.py.
pub mod Access
use fair_drop.Common.{
  ℕ, Bool, true, false, not, ◌&&◌, ◌||◌, Option, none, some, List, [], ◌∷◌, ◌==◌, if◌then◌else◌,
}
use fair_drop.Exceptions.{
  Error, Result, ok, err, permission_denied, value_error, ◌>>=◌, ◌>>◌, raise_if, or_raise,
}
use fair_drop.Models.{
  UserRole, admin, moderator, user, user_b2b, seller, seller_b2b, User, Product, Order, is_staff,
}
use fair_drop.Database.{is_some}

abbrev pub is_admin : UserRole → Bool
is_admin admin = true
is_admin _ = false

-- `==` of two roles
unfoldable pub role_eq : UserRole → UserRole → Bool
role_eq admin admin = true
role_eq moderator moderator = true
role_eq user user = true
role_eq user_b2b user_b2b = true
role_eq seller seller = true
role_eq seller_b2b seller_b2b = true
role_eq _ _ = false

-- `role in allowed_roles`
unfoldable pub role_in : UserRole → List UserRole → Bool
unfolding role_eq
role_in r [] = false
role_in r (a ∷ allowed_roles) = role_eq r a || role_in r allowed_roles

unfoldable pub check_permission : User → List UserRole → Bool → Result (Unit {0})
check_permission u allowed_roles required_verified = if is_admin u.role then ok tt else do
  raise_if (required_verified && not u.is_verified) permission_denied
  raise_if (not (role_in u.role allowed_roles)) permission_denied

-- What `hasattr` and `getattr` find on the object.
pub record Ownable : Type 0 where
  pub owner_id : Option ℕ
  pub user_id : Option ℕ

abbrev pub product_ownable : Product → Ownable
product_ownable p = record { owner_id = some p.owner_id; user_id = none }

abbrev pub order_ownable : Order → Ownable
order_ownable o = record { owner_id = none; user_id = some o.user_id }

-- The attribute that `owner_attr` names.
abbrev pub owner_attr : Ownable → Option ℕ
owner_attr o = if not (is_some o.owner_id) && is_some o.user_id then o.user_id else o.owner_id

unfoldable pub check_ownership : User → Ownable → Result (Unit {0})
check_ownership u obj = if is_staff u.role then ok tt else do
  owner ← or_raise (owner_attr obj) value_error
  raise_if (not (owner == u.id)) permission_denied

-- `RoleChecker.__call__`
pub record RoleChecker : Type 0 where
  pub allowed_roles : List UserRole
  pub required_verified : Bool

unfoldable pub call : RoleChecker → User → Result User
unfolding check_permission
call c u = do check_permission u c.allowed_roles c.required_verified; ok u
