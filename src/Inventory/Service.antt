-- ===== src/Inventory/Service.antt =====
-- `InventoryService` of app/services/inventory/service.py: the products. `reserve_items` is in
-- Reserve. The row lock of `for_update` has no part in a model where each request is one step.
pub mod Effects
use fair_drop.Common.{
  ℤ, pos, negsuc, ℕ, Bool, true, false, ◌&&◌, not, String, Option, none, some, List, [], ◌∷◌, map,
  leb, length, take, drop, ◌==◌, if◌then◌else◌,
}
use fair_drop.Common.Table.{Table, get, select}
use fair_drop.Exceptions.{
  Error, Result, ok, err, not_found, conflict, seller_limit_exceeded, data_error, ◌>>=◌, ◌>>◌,
  raise_if, or_raise,
}
use fair_drop.Json.{Dict}
use fair_drop.Models.{
  User, Product, product_status_index, ProductStatus, draft, active, archived, pending_moderation,
  moderation_in_progress, rejected, is_staff, is_seller,
}
use fair_drop.Database.{
  Session, integer_max, insert_product, update_product_row, delete_product_row,
}
use fair_drop.Security.{check_ownership, product_ownable}
use fair_drop.AuditLog.{log_object_change}
use fair_drop.Config.{Settings}
use fair_drop.Inventory.Schemas.{ProductCreate, ProductUpdate, apply_update, product_read}

unfoldable pub seller_limit : Settings → User → ℕ
seller_limit settings u =
    if is_seller u.role && u.is_verified
    then settings.verified_seller_limit
    else settings.unverified_seller_limit

unfoldable pub check_seller_limit : Settings → User → Session → Result (Unit {0})
unfolding seller_limit
check_seller_limit settings u s =
    if is_staff u.role
    then ok tt
    else (let product_count = length (select (λ p. p.owner_id == u.id) s.products) in
        raise_if (leb (seller_limit settings u) product_count) seller_limit_exceeded)

-- `if current_user: check_ownership(current_user, product)`
abbrev pub check_owner_if : Option User → Product → Result (Unit {0})
check_owner_if none p = ok tt
check_owner_if (some u) p = check_ownership u (product_ownable p)

-- `_get_product`
unfoldable pub get_product_row : ℕ → Option User → Session → Result Product
get_product_row product_id current_user s = do
  product ← or_raise (get product_id s.products) not_found
  check_owner_if current_user product
  ok product

unfoldable pub log_product_change :
    User → ℕ → Product → Option Dict → String → Dict → Session → Session
log_product_change u product_id product old_snapshot action metadata s =
    log_object_change u.id product_id "product" action old_snapshot
      (some (product_read product_id product)) metadata s

-- The flush of the changed row, the audit entry, and the commit, as every update ends.
unfoldable pub save_product :
    User → ℕ → Product → Product → String → Dict → Session → Result (Product × Session)
save_product u product_id old product action metadata s = do
  s' ← update_product_row product_id product s
  ok (
    product,
    log_product_change u product_id product (some (product_read product_id old)) action metadata s',
  )

-- `status in (ProductStatus.DRAFT, ProductStatus.REJECTED)`
abbrev pub is_submittable : ProductStatus → Bool
is_submittable draft = true
is_submittable rejected = true
is_submittable _ = false

-- `status in (ProductStatus.PENDING_MODERATION, ProductStatus.MODERATION_IN_PROGRESS)`
abbrev pub is_under_moderation : ProductStatus → Bool
is_under_moderation pending_moderation = true
is_under_moderation moderation_in_progress = true
is_under_moderation _ = false

abbrev pub is_active : ProductStatus → Bool
is_active active = true
is_active _ = false

unfoldable pub submit_for_moderation : ℕ → User → Session → Result (Product × Session)
submit_for_moderation product_id current_user s = do
  product ← get_product_row product_id (some current_user) s
  raise_if (not (is_submittable product.status)) conflict
  save_product current_user product_id product
      (record product { status = pending_moderation; moderator_id = none }) "submit_for_moderation"
      [] s

-- `Product(**product_data.model_dump())` with the columns' defaults.
abbrev pub new_product : ℕ → ℕ → ProductCreate → Product
new_product now owner_id product_data = record {
  owner_id = owner_id;
  name = product_data.name;
  description = product_data.description;
  price = product_data.price;
  qty_available = product_data.qty_available;
  created_at = now;
  status = draft;
  moderator_id = none;
  moderation_comment = none;
}

-- `id` is the key that `uuid4` draws, and `now` the server's clock.
unfoldable pub create_product :
    Settings → ℕ → ℕ → ℕ → ProductCreate → User → Session → Result (Product × Session)
create_product settings now id owner_id product_data current_user s = do
  check_seller_limit settings current_user s
  let product = new_product now owner_id product_data
  s' ← insert_product id product s
  ok (product, log_product_change current_user id product none "create" [] s')

-- The status after an edit: an active product goes back to moderation.
abbrev pub edited : Product → Product
edited p =
    if is_active p.status then record p { status = pending_moderation; moderator_id = none } else p

unfoldable pub update_product : ℕ → ProductUpdate → User → Session → Result (Product × Session)
update_product product_id product_data current_user s = do
  product ← get_product_row product_id (some current_user) s
  raise_if (is_under_moderation product.status) conflict
  product' ← apply_update product_data product
  save_product current_user product_id product (edited product') "update" [] s

unfoldable pub delete_product : ℕ → User → Session → Result Session
delete_product product_id current_user s = do
  product ← get_product_row product_id (some current_user) s
  let s' =
      log_product_change current_user product_id product (some (product_read product_id product))
        "delete" [] s
  delete_product_row product_id s'

unfoldable pub get_product : ℕ → Session → Result Product
get_product product_id s = get_product_row product_id none s

-- `==` of two statuses
abbrev pub product_status_eq : ProductStatus → ProductStatus → Bool
product_status_eq a b = product_status_index a == product_status_index b

-- `if status: query.where(Product.status == status)`
abbrev pub matches_status : Option ProductStatus → Product → Bool
matches_status none p = true
matches_status (some status) p = product_status_eq p.status status

-- A query with no ORDER BY: here the rows come in the order of insertion.
-- `offset` and `limit` are bound as INTEGER, and PostgreSQL refuses a negative one.
abbrev pub page_bound : ℤ → Option ℕ
page_bound (pos n) = if leb n integer_max then some n else none
page_bound (negsuc n) = none

unfoldable pub get_products : Option ProductStatus → ℤ → ℤ → Session → Result (Table Product)
get_products status skip limit s = do
  m ← or_raise (page_bound skip) data_error
  n ← or_raise (page_bound limit) data_error
  ok (take n (drop m (select (matches_status status) s.products)))
