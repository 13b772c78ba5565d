-- ===== src/Routes/Dashboards/Shown.antt =====
-- Who sees the orders of a seller.
use fair_drop.Common.{ℕ, ◌≡◌, ◌⊎◌, inl, inr, true, String, Option, arith, All}
use fair_drop.Common.Table.{Table}
use fair_drop.Exceptions.{ok, Result-cases}
use fair_drop.Config.{Settings}
use fair_drop.Models.{User, OrderStatus, is_seller}
use fair_drop.Database.{Session}
use fair_drop.Security.{is_admin, call, check_permission, role_in, role_eq}
use fair_drop.Users.Access.{Jwt, get_current_user}
use fair_drop.Sellers.{SellerOrderRead, get_my_orders}
use fair_drop.Sellers.Shown.{IsShown, get_my_orders-IsShown}
use fair_drop.Routes.{checked_user}
use fair_drop.Routes.Publishing.{checked_user-ok}
use fair_drop.Routes.Dashboards.{verified_seller_dependency, fetch_seller_orders}

seller_call :
    (u : User)
    → call verified_seller_dependency u ≡ ok u
    → (is_admin u.role ≡ true) ⊎ ((is_seller u.role ≡ true) × (u.is_verified ≡ true))
unfolding call check_permission role_in role_eq
seller_call u h = ground arith

-- The route of a seller's orders answers verified sellers and admins alone, and shows each of them
-- orders with items of the user's own products, these items alone, and no address of a pending,
-- failed or cancelled order.
pub fetch_seller_orders-IsShown :
    (jwt : Jwt) (settings : Settings) (now : ℕ) (token : String) (status : Option OrderStatus)
    (s : Session) (rows : Table SellerOrderRead)
    → fetch_seller_orders jwt settings now token status s ≡ ok rows
    → (u : User) × (get_current_user jwt settings now token s ≡ ok u)
      × ((is_admin u.role ≡ true) ⊎ ((is_seller u.role ≡ true) × (u.is_verified ≡ true)))
      × All (IsShown u.id s) rows
unfolding fetch_seller_orders
fetch_seller_orders-IsShown jwt settings now token status s rows h =
    elim (Result-cases (checked_user jwt settings verified_seller_dependency now token s)) [
      | inr (e, failed) ↦ absurd (ground arith)
      | inl (u, known) ↦
          let (current, passed) =
            checked_user-ok jwt settings verified_seller_dependency now token s u known in
          let shown : rows ≡ get_my_orders u.id status s = ground arith in
          (u, current, seller_call u passed, rw shown (get_my_orders-IsShown u.id status s))
    ]
