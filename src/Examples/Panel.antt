-- ===== src/Examples/Panel.antt =====
-- The reviewer of the sample shop enters the admin panel, and approves a product.
use fair_drop.Common.{ℕ, ◌≡◌, ◌⊎◌, refl, true, some, none, arith}
use fair_drop.Common.Table.{get, put, select, IsKeyed}
use fair_drop.Exceptions.{Result, ok, err}
use fair_drop.Models.{User, Product, active, is_staff}
use fair_drop.Database.{Session, update_product_row, check_product}
use fair_drop.AuditLog.{log_object_change, dict_get, get_diff}
use fair_drop.Json.{json_eq}
use fair_drop.Inventory.Schemas.{product_read}
use fair_drop.Security.{call, check_permission, role_in, role_eq}
use fair_drop.Users.Accounts.{authenticate_user}
use fair_drop.Users.Access.{get_current_user}
use fair_drop.Inventory.Service.{get_product_row, save_product, log_product_change, is_active}
use fair_drop.Inventory.Admin.{approve_product}
use fair_drop.Admin.{login}
use fair_drop.Routes.{checked_user}
use fair_drop.Routes.Inventory.{approve_product_route}
use fair_drop.Routes.Publishing.{serve, approve_claimed, serve-IsByStaff}
use fair_drop.Examples.Sample.{settings, shop, chair}
use fair_drop.Examples.Access.{plain_text, plain_tokens}

reviewer_in :
    login plain_text (some "reviewer@example.com") (some "hash of reviewer") shop none
    ≡ ok (true, some 3)
unfolding login authenticate_user select check_permission role_in role_eq
reviewer_in = refl

own_ids : (i : ℕ) (u : User) → get i shop.users ≡ some u → u.id ≡ i
unfolding get
own_ids i u found = ground arith

shop-IsKeyed : IsKeyed shop.users
unfolding get
shop-IsKeyed = (refl, (refl, (refl, tt)))

abbrev approved_shop : Result Session
approved_shop = serve plain_tokens settings 20 "sreviewer@example.com" (approve_claimed 11) shop

abbrev session_in : Result Session → Session
session_in (ok s) = s
session_in (err e) = shop

abbrev active_chair : Product
active_chair = record chair { status = active; moderator_id = none }

chair_approved : approved_shop ≡ ok (session_in approved_shop)
unfolding serve approve_product_route checked_user get_current_user call check_permission role_in
    role_eq approve_product get_product_row save_product update_product_row check_product get put
    select
chair_approved = refl

chair_there : get 11 (session_in approved_shop).products ≡ some active_chair
unfolding serve approve_product_route checked_user get_current_user call check_permission role_in
    role_eq approve_product get_product_row save_product update_product_row check_product get put
    select log_product_change log_object_change product_read json_eq dict_get get_diff
chair_there = refl

products-IsKeyed : IsKeyed shop.products
unfolding get
products-IsKeyed = (refl, (refl, tt))

serve-IsByStaff_example :
    ((p : Product) × (get 11 shop.products ≡ some p) × (is_active p.status ≡ true))
    ⊎ ((u : User) × (get_current_user plain_tokens settings 20 "sreviewer@example.com" shop ≡ ok u)
        × (is_staff u.role ≡ true))
serve-IsByStaff_example =
    serve-IsByStaff plain_tokens settings 20 "sreviewer@example.com" (approve_claimed 11) shop
      (session_in approved_shop) 11 active_chair products-IsKeyed chair_approved chair_there refl
