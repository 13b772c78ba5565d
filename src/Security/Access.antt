-- ===== src/Security/Access.antt =====
-- Who is let through: exactly the owner and the staff, and exactly the allowed roles and the admin.
use fair_drop.Common.{◌≡◌, ◌↔◌, ◌⊎◌, true, false, arith}
use fair_drop.Exceptions.{ok, err, permission_denied}
use fair_drop.Models.{User, Product, Order, is_staff}
use fair_drop.Security.{
  check_ownership, check_permission, role_in, product_ownable, order_ownable, is_admin, RoleChecker,
  call,
}

-- A product is open to its owner and to admins and moderators, and to no other user; everybody
-- else is refused with `permission_denied`.
pub check_ownership-product :
    (u : User) (p : Product)
    → ((check_ownership u (product_ownable p) ≡ ok tt)
        ↔ ((is_staff u.role ≡ true) ⊎ (p.owner_id ≡ u.id)))
      × ((check_ownership u (product_ownable p) ≡ ok tt)
          ⊎ (check_ownership u (product_ownable p) ≡ err permission_denied))
unfolding check_ownership
check_ownership-product u p = ground arith

pub check_ownership-order :
    (u : User) (o : Order)
    → ((check_ownership u (order_ownable o) ≡ ok tt)
        ↔ ((is_staff u.role ≡ true) ⊎ (o.user_id ≡ u.id)))
      × ((check_ownership u (order_ownable o) ≡ ok tt)
          ⊎ (check_ownership u (order_ownable o) ≡ err permission_denied))
unfolding check_ownership
check_ownership-order u o = ground arith

-- A role checker lets a user through exactly if the user is an admin, or has an allowed role and,
-- where verification is required, is verified.
pub call_iff :
    (c : RoleChecker) (u : User)
    → (call c u ≡ ok u) ↔ (
        (is_admin u.role ≡ true)
        ⊎ ((role_in u.role c.allowed_roles ≡ true)
            × ((c.required_verified ≡ false) ⊎ (u.is_verified ≡ true))))
unfolding call check_permission
call_iff c u = ground arith
