-- ===== src/Routes/Dashboards.antt =====
-- The dashboards of app/services/seller_user/routes.py and app/services/buyer_user/routes.py.
pub mod Shown
use fair_drop.Common.{
  ℕ, ◌≡◌, ◌⊎◌, refl, inl, inr, Bool, true, false, String, Option, [], ◌∷◌, arith, All, ◌==◌,
}
use fair_drop.Common.Table.{Table, IsKeyed, select}
use fair_drop.Common.Table.Select.{IsRow, select_sound}
use fair_drop.Exceptions.{Result, ok, ◌>>=◌, Result-cases}
use fair_drop.Config.{Settings}
use fair_drop.Models.{
  User, user, user_b2b, seller, seller_b2b, is_seller, Product, ProductStatus, Order, OrderStatus,
}
use fair_drop.Database.{Session}
use fair_drop.Security.{RoleChecker, is_admin, call, check_permission, role_in, role_eq}
use fair_drop.Users.Access.{Jwt, get_current_user}
use fair_drop.Routes.{checked_user}
use fair_drop.Sellers
use fair_drop.Buyers

abbrev pub verified_seller_dependency : RoleChecker
verified_seller_dependency = record {
  allowed_roles = seller ∷ seller_b2b ∷ [];
  required_verified = true;
}

abbrev pub buyer_dependency : RoleChecker
buyer_dependency = record { allowed_roles = user ∷ user_b2b ∷ []; required_verified = false }

module _ (jwt : Jwt) (settings : Settings) (now : ℕ) (token : String) where
  unfoldable pub fetch_seller_stats : Session → Result Sellers.SellerStats
  fetch_seller_stats s = do
    current_user ← checked_user jwt settings verified_seller_dependency now token s
    ok (Sellers.get_my_stats current_user.id s)

  unfoldable pub fetch_my_products : Option ProductStatus → Session → Result (Table Product)
  fetch_my_products status s = do
    current_user ← checked_user jwt settings verified_seller_dependency now token s
    ok (Sellers.get_my_products current_user.id status s)

  pub fetch_seller_orders : Option OrderStatus → Session → Result (Table Sellers.SellerOrderRead)
  fetch_seller_orders status s = do
    current_user ← checked_user jwt settings verified_seller_dependency now token s
    ok (Sellers.get_my_orders current_user.id status s)

  unfoldable pub fetch_buyer_stats : Session → Result Buyers.BuyerStats
  fetch_buyer_stats s = do
    current_user ← checked_user jwt settings buyer_dependency now token s
    ok (Buyers.get_my_stats current_user.id s)

  unfoldable pub fetch_buyer_orders : Option OrderStatus → Session → Result (Table Order)
  fetch_buyer_orders status s = do
    current_user ← checked_user jwt settings buyer_dependency now token s
    ok (Buyers.get_my_orders current_user.id status s)
