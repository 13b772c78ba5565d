-- ===== src/Orders/Service.antt =====
-- `OrderService` of app/services/orders/service.py, the payloads of orders/schemas.py, and
-- `cancel_order_by_system` of orders/internal.py.
pub mod Outcome
pub mod Accepted
use fair_drop.Common.{
  ℕ, ◌*◌, Bool, true, false, not, ◌&&◌, String, Option, none, some, List, [], ◌∷◌, ltb, ◌==◌,
  if◌then◌else◌,
}
use fair_drop.Common.Table.{Table, get, select}
use fair_drop.Exceptions.{
  Error, Result, ok, err, not_found, conflict, ◌>>=◌, ◌>>◌, raise_if, or_raise,
}
use fair_drop.Json.{Json, null, str, num, arr, obj, Items, nil, cons, end, field, Dict}
use fair_drop.Models.{
  User, Product, Reservation, Order, OrderItem, OrderStatus, is_staff, is_pending,
  order_status_name,
}
use fair_drop.Database.{
  Session, insert_order, insert_order_item, update_reservation_row, update_order_row, is_some,
}
use fair_drop.Security.{check_ownership, order_ownable}
use fair_drop.AuditLog.{log_object_change, log_pii_access, json_of_option}
use fair_drop.Inventory.Internal.{
  mark_reservation_by_order_as_completed, cancel_reservation_by_order_and_return_stock,
}

pub record OrderCreate : Type 0 where
  pub reservation_id : ℕ
  pub shipping_address : Option String

-- `OrderItemResponse`
abbrev pub item_response : ℕ → OrderItem → Json
item_response id i = obj (
    field "id" (num id) (
      field "product_id" (num i.product_id) (
        field "product_name" (str i.product_name)
          (field "quantity" (num i.quantity) (field "price" (num i.price) end)))))

abbrev pub items_response : Table OrderItem → Items
items_response [] = nil
items_response ((id, i) ∷ items) = cons (item_response id i) (items_response items)

-- `OrderResponse.model_validate(order).model_dump(mode='json')`
unfoldable pub order_response : ℕ → Order → Table OrderItem → Dict
order_response id o items =
    ("id", num id)
    ∷ ("user_id", num o.user_id)
    ∷ ("status", str (order_status_name o.status))
    ∷ ("total_amount", num o.total_amount)
    ∷ ("shipping_address", json_of_option o.shipping_address)
    ∷ ("created_at", num o.created_at)
    ∷ ("items", arr (items_response items))
    ∷ []

-- `order.items`
abbrev pub items_of : ℕ → Session → Table OrderItem
items_of order_id s = select (λ i. i.order_id == order_id) s.order_items

-- `_get_order`
unfoldable pub get_order : ℕ → User → Session → Result Order
get_order order_id current_user s = do
  order ← or_raise (get order_id s.orders) not_found
  check_ownership current_user (order_ownable order)
  ok order

unfoldable pub log_order_change : User → ℕ → Order → Option Dict → String → Session → Session
log_order_change u order_id order old_snapshot action s =
    log_object_change u.id order_id "order" action old_snapshot
      (some (order_response order_id order (items_of order_id s))) [] s

unfoldable pub get_order_for_details : ℕ → User → Session → Result (Order × Session)
get_order_for_details order_id current_user s = do
  order ← get_order order_id current_user s
  ok (
    order,
    (if not (current_user.id == order.user_id) && is_staff current_user.role
        then log_pii_access current_user.id order_id "order" (some "admin_pii_view") s
        else s),
  )

-- The reservation that the query finds: with that key, of that user, and PENDING.
unfoldable pub find_reservation : ℕ → User → Session → Option Reservation
find_reservation reservation_id u s = elim (get reservation_id s.reservations) [
  | none ↦ none
  | some r ↦ if r.user_id == u.id && is_pending r.status then some r else none
]

abbrev pub new_order : ℕ → User → OrderCreate → Reservation → Product → Order
new_order now u order_data r product = record {
  user_id = u.id;
  status = OrderStatus.pending;
  total_amount = product.price * r.qty_reserved;
  shipping_address = order_data.shipping_address;
  created_at = now;
}

abbrev pub new_order_item : ℕ → Reservation → Product → OrderItem
new_order_item order_id r product = record {
  order_id = order_id;
  product_id = r.product_id;
  product_name = product.name;
  quantity = r.qty_reserved;
  price = product.price;
}

-- `order_id` and `item_id` are the keys that `uuid4` draws.
unfoldable pub create_order_from_reservation :
    ℕ → ℕ → ℕ → User → OrderCreate → Session → Result (Order × Session)
create_order_from_reservation now order_id item_id current_user order_data s = do
  r ← or_raise (find_reservation order_data.reservation_id current_user s) not_found
  raise_if (ltb r.expires_at now) conflict
  raise_if (is_some r.order_id) conflict
  product ← or_raise (get r.product_id s.products) not_found
  let order = new_order now current_user order_data r product
  s₁ ← insert_order order_id order s
  s₂ ← insert_order_item item_id (new_order_item order_id r product) s₁
  let s₃ =
      update_reservation_row order_data.reservation_id (record r { order_id = some order_id }) s₂
  ok (order, log_order_change current_user order_id order none "create" s₃)

-- The order's new status, flushed and logged.
unfoldable pub save_order : User → ℕ → Order → OrderStatus → String → Session → Session
save_order u order_id order status action s =
    let order' = record order { status = status } in
    log_order_change u order_id order' (some (order_response order_id order (items_of order_id s)))
      action (update_order_row order_id order' s)

unfoldable pub confirm_order_payment : ℕ → User → Session → Result (Order × Session)
confirm_order_payment order_id current_user s = do
  order ← get_order order_id current_user s
  raise_if (not (is_pending order.status)) conflict
  s' ←
      mark_reservation_by_order_as_completed order_id
        (save_order current_user order_id order OrderStatus.paid "payment" s)
  ok (record order { status = OrderStatus.paid }, s')

unfoldable pub cancel_order : ℕ → User → Session → Result (Order × Session)
cancel_order order_id current_user s = do
  order ← get_order order_id current_user s
  raise_if (not (is_pending order.status)) conflict
  s' ←
      cancel_reservation_by_order_and_return_stock order_id
        (save_order current_user order_id order OrderStatus.cancelled "cancel" s)
  ok (record order { status = OrderStatus.cancelled }, s')

unfoldable pub cancel_order_by_system : ℕ → Session → Result Session
cancel_order_by_system order_id s = do
  order ← or_raise (get order_id s.orders) not_found
  ok (update_order_row order_id (record order { status = OrderStatus.cancelled }) s)
