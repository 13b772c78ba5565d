-- ===== src/Examples/Purchases.antt =====
-- Reservations, orders and payments in the sample shop.
use fair_drop.Common.{◌≡◌, ◌↔◌, refl, inl, some}
use fair_drop.Common.Table.{get, select, put}
use fair_drop.Exceptions.{Result, ok, err}
use fair_drop.Json.{json_eq}
use fair_drop.Models.{Reservation, Order, OrderStatus}
use fair_drop.Database.{
  Session, check_product, update_product_row, insert_reservation, insert_order, insert_order_item,
}
use fair_drop.Security.{check_ownership}
use fair_drop.AuditLog.{log_object_change, dict_get}
use fair_drop.Inventory.Schemas.{ReservationCreate}
use fair_drop.Inventory.Internal.{mark_reservation_by_order_as_completed, reservation_by_order}
use fair_drop.Inventory.Reserve.{reserve_items}
use fair_drop.Inventory.Reserve.Accepted.{IsReserved, reserve_items_iff}
use fair_drop.Orders.Service.{
  OrderCreate, create_order_from_reservation, find_reservation, confirm_order_payment, cancel_order,
  get_order, save_order, log_order_change, order_response,
}
use fair_drop.Orders.Settlement.{
  IsRefused, settled_once, confirm_order_payment_total, cancel_order_total,
}
use fair_drop.Examples.Sample.{
  settings, shop, buyer, reviewer, placed_order, plain_reservation, shop-IsConsistent,
  shop-IsStorable,
}

abbrev session_of : {A : Type 0} → Result (A × Session) → Session
session_of (ok (a, s)) = s
session_of (err e) = shop

abbrev paid_shop : Session
paid_shop = session_of (confirm_order_payment 30 buyer shop)

shop_paid :
    confirm_order_payment 30 buyer shop
    ≡ ok (record placed_order { status = OrderStatus.paid }, paid_shop)
unfolding confirm_order_payment get_order get select check_ownership save_order log_order_change
    log_object_change order_response json_eq mark_reservation_by_order_as_completed
    reservation_by_order dict_get
shop_paid = refl

settled_once_example :
    IsRefused (confirm_order_payment 30 reviewer paid_shop)
    × IsRefused (cancel_order 30 reviewer paid_shop)
settled_once_example =
    settled_once 30 buyer reviewer shop paid_shop
      (record placed_order { status = OrderStatus.paid }) shop-IsConsistent (inl shop_paid)

confirm_order_payment_total_example :
    (s' : Session) × (confirm_order_payment 30 buyer shop
      ≡ ok (record placed_order { status = OrderStatus.paid }, s'))
unfolding get check_ownership
confirm_order_payment_total_example =
    confirm_order_payment_total 30 buyer shop placed_order shop-IsConsistent refl refl refl

cancel_order_total_example :
    (s' : Session) × (cancel_order 30 buyer shop
      ≡ ok (record placed_order { status = OrderStatus.cancelled }, s'))
unfolding get check_ownership
cancel_order_total_example =
    cancel_order_total 30 buyer shop placed_order shop-IsConsistent shop-IsStorable refl refl refl

abbrev one_lamp : ReservationCreate
one_lamp = record { product_id = 10; quantity = 1 }

abbrev reserved_shop : Session
reserved_shop = session_of (reserve_items settings 50 22 1 "k22" one_lamp shop)

abbrev lamp_reservation : Reservation
lamp_reservation = record plain_reservation {
  qty_reserved = 1;
  idempotency_key = "k22";
  expires_at = 900000050;
}

lamp_reserved :
    reserve_items settings 50 22 1 "k22" one_lamp shop ≡ ok (lamp_reservation, reserved_shop)
unfolding reserve_items update_product_row check_product insert_reservation get put select
lamp_reserved = refl

abbrev lamp_order : OrderCreate
lamp_order = record { reservation_id = 20; shipping_address = some "1 Main Street" }

abbrev second_order : Order
second_order = record placed_order { total_amount = 2000; created_at = 50 }

abbrev ordered_shop : Session
ordered_shop = session_of (create_order_from_reservation 50 31 41 buyer lamp_order shop)

lamp_ordered :
    create_order_from_reservation 50 31 41 buyer lamp_order shop ≡ ok (second_order, ordered_shop)
unfolding create_order_from_reservation find_reservation insert_order insert_order_item get put
    select log_order_change log_object_change order_response json_eq dict_get
lamp_ordered = refl

reserve_items_iff_example :
    (reserve_items settings 50 22 1 "k22" one_lamp shop ≡ ok (lamp_reservation, reserved_shop))
    ↔ IsReserved settings 50 22 1 "k22" one_lamp shop lamp_reservation reserved_shop
reserve_items_iff_example =
    reserve_items_iff settings 50 22 1 "k22" one_lamp shop reserved_shop lamp_reservation
