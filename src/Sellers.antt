-- ===== src/Sellers.antt =====
-- app/services/seller_user/service.py: a seller's products, the orders that contain them, and how
-- many there are. An item's product is there by its foreign key. In the groups a status stands by
-- its place in the enumeration.
pub mod Figures
pub mod Shown
use fair_drop.Common.{
  ℕ, Bool, true, false, not, ◌&&◌, String, Option, none, some, [], ◌∷◌, ◌==◌, if◌then◌else◌,
}
use fair_drop.Common.Table.{Table, get, select}
use fair_drop.Common.Table.Groups.{group, count_of, total, sort_desc}
use fair_drop.Models.{
  Product, ProductStatus, active, pending_moderation, rejected, product_status_index, Order,
  OrderItem, OrderStatus, order_status_index,
}
use fair_drop.Database.{Session, is_empty}
use fair_drop.Inventory.Service.{matches_status}
use fair_drop.Buyers.{has_status}

-- `get_my_products`, the newest product first.
pub get_my_products : ℕ → Option ProductStatus → Session → Table Product
get_my_products user_id status s =
    sort_desc (λ p. p.created_at)
      (select (λ p. p.owner_id == user_id && matches_status status p) s.products)

-- `item.product.owner_id == user_id`
abbrev pub is_owned : ℕ → Session → OrderItem → Bool
is_owned user_id s item = elim (get item.product_id s.products) [
  | none ↦ false
  | some p ↦ p.owner_id == user_id
]

-- The items of an order that are the seller's.
abbrev pub my_items : ℕ → Session → ℕ → Table OrderItem
my_items user_id s order_id =
    select (λ item. item.order_id == order_id && is_owned user_id s item) s.order_items

-- The orders that the joins with the items and the products reach, each once.
pub joined : ℕ → Session → Table Order → Table Order
joined user_id s [] = []
joined user_id s ((id, o) ∷ orders) =
    let rest = joined user_id s orders in
    if is_empty (my_items user_id s id) then rest else (id, o) ∷ rest

-- The shipping address is shown in no other status.
abbrev pub hides_address : OrderStatus → Bool
hides_address OrderStatus.pending = true
hides_address OrderStatus.failed = true
hides_address OrderStatus.cancelled = true
hides_address _ = false

pub record SellerOrderRead : Type 0 where
  pub status : OrderStatus
  pub created_at : ℕ
  pub shipping_address : Option String
  pub seller_items : Table OrderItem

abbrev pub seller_order : ℕ → Session → ℕ → Order → SellerOrderRead
seller_order user_id s id o = record {
  status = o.status;
  created_at = o.created_at;
  shipping_address = if hides_address o.status then none else o.shipping_address;
  seller_items = my_items user_id s id;
}

pub seller_orders : ℕ → Session → Table Order → Table SellerOrderRead
seller_orders user_id s [] = []
seller_orders user_id s ((id, o) ∷ orders) =
    (id, seller_order user_id s id o) ∷ seller_orders user_id s orders

unfoldable pub get_my_orders : ℕ → Option OrderStatus → Session → Table SellerOrderRead
get_my_orders user_id status s =
    seller_orders user_id s
      (sort_desc (λ o. o.created_at) (select (has_status status) (joined user_id s s.orders)))

pub record SellerStats : Type 0 where
  pub total_products : ℕ
  pub active_products : ℕ
  pub pending_moderation : ℕ
  pub rejected_products : ℕ
  pub pending_orders : ℕ
  pub paid_orders : ℕ

-- `SELECT status, count(id) … GROUP BY status`
abbrev pub product_counts : ℕ → Session → Table ℕ
product_counts user_id s =
    group (λ p. product_status_index p.status) (select (λ p. p.owner_id == user_id) s.products)

-- `SELECT status, count(DISTINCT id) … GROUP BY status` over the joins.
abbrev pub order_counts : ℕ → Session → Table ℕ
order_counts user_id s = group (λ o. order_status_index o.status) (joined user_id s s.orders)

unfoldable pub get_my_stats : ℕ → Session → SellerStats
get_my_stats user_id s =
    let products = product_counts user_id s in
    let orders = order_counts user_id s in
    record {
      total_products = total products;
      active_products = count_of (product_status_index active) products;
      pending_moderation =
          count_of (product_status_index ProductStatus.pending_moderation) products;
      rejected_products = count_of (product_status_index rejected) products;
      pending_orders = count_of (order_status_index OrderStatus.pending) orders;
      paid_orders = count_of (order_status_index OrderStatus.paid) orders;
    }
