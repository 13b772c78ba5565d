-- ===== src/Examples/Lifecycle.antt =====
-- The lifecycle of the sample shop's reservations.
use fair_drop.Common.{none, ◌+◌, ap, sym, ◌∙◌, true, arith, ◌≡◌, refl, some}
use fair_drop.Common.Table.{get, put, select}
use fair_drop.Exceptions.{Result, ok, err}
use fair_drop.Json.{json_eq}
use fair_drop.Models.{Order, OrderStatus}
use fair_drop.Database.{Session, update_product_row, check_product}
use fair_drop.Security.{check_ownership}
use fair_drop.AuditLog.{log_object_change, dict_get}
use fair_drop.Inventory.Internal.{mark_reservation_by_order_as_completed, reservation_by_order}
use fair_drop.Orders.Service.{
  confirm_order_payment, get_order, save_order, log_order_change, order_response,
}
use fair_drop.Expiry.{release_expired_reservations, release_row, cancel_order_if}
use fair_drop.Expiry.Release.{expired_row}
use fair_drop.Expiry.Loaded.{release_turn, release_loaded, release_loaded-stock}
use fair_drop.Inventory.Internal.{close_reservation, return_stock}
use fair_drop.Expiry.Complete.{release_expired_reservations-exact}
use fair_drop.Stock.{stock}
use fair_drop.Lifecycle.Steps.{IsSafe}
use fair_drop.System.{pay, release, Reach, here, next, IsUndisturbed}
use fair_drop.System.Oversell.{Reach-IsSafe}
use fair_drop.System.Orders.{IsKeptOrSettled, Reach-IsKeptOrSettled}
use fair_drop.Migrations.{type_values}
use fair_drop.System.Typed.{IsTyped, is_order_status, Reach-IsTyped}
use fair_drop.Examples.Sample.{
  shop, buyer, lamp, placed_order, plain_reservation, shop-IsConsistent, shop-IsStorable,
}

abbrev session_of : Session → Result (Order × Session) → Session
session_of s (ok (o, s')) = s'
session_of s (err e) = s

abbrev session_after : Result Session → Session
session_after (ok s') = s'
session_after (err e) = shop

abbrev paid_shop : Session
paid_shop = session_of shop (confirm_order_payment 30 buyer shop)

shop_paid :
    confirm_order_payment 30 buyer shop
    ≡ ok (record placed_order { status = OrderStatus.paid }, paid_shop)
unfolding confirm_order_payment get_order get select check_ownership save_order log_order_change
    log_object_change order_response json_eq mark_reservation_by_order_as_completed
    reservation_by_order dict_get
shop_paid = refl

-- A turn of a sweep, which has loaded no product, after the payment.
abbrev released_shop : Session
released_shop = release_turn none 20 paid_shop

abbrev history : Reach shop released_shop
history = next (next here (pay 30 buyer _ shop_paid)) (release none 20 refl)

history-IsUndisturbed : IsUndisturbed history
history-IsUndisturbed = ((tt, tt), λ r p found known. refl)

Reach-IsSafe_example : IsSafe shop released_shop
Reach-IsSafe_example = Reach-IsSafe shop-IsConsistent history history-IsUndisturbed

abbrev stale : Result Session
stale = release_loaded (some 9) 20 shop

released_stale : stale ≡ ok (session_after stale)
unfolding release_loaded release_row cancel_order_if close_reservation return_stock
    update_product_row check_product get put
released_stale = refl

-- Since the sweep loaded the lamp, four have been reserved, and they come back.
release_loaded-stock_example : stock 10 (session_after stale) + 5 ≡ stock 10 shop + 9
unfolding get
release_loaded-stock_example =
    release_loaded-stock (some 9) 20 shop shop-IsConsistent plain_reservation lamp
      (session_after stale) refl refl refl released_stale

release_expired_reservations-exact_example :
    get 20 (release_expired_reservations 101 shop).reservations
    ≡ some (expired_row plain_reservation)
unfolding get
release_expired_reservations-exact_example =
    release_expired_reservations-exact 101 shop 20 shop-IsConsistent shop-IsStorable

order_there : get 30 shop.orders ≡ some placed_order
unfolding get
order_there = refl

Reach-IsKeptOrSettled_example :
    (o : Order) × (get 30 (released_shop).orders ≡ some o) × IsKeptOrSettled placed_order o
Reach-IsKeptOrSettled_example =
    Reach-IsKeptOrSettled 30 placed_order shop-IsConsistent order_there history

paying : Reach shop paid_shop
paying = next here (pay 30 buyer _ shop_paid)

paid_there : get 30 paid_shop.orders ≡ some (record placed_order { status = OrderStatus.paid })
unfolding confirm_order_payment get_order get put select check_ownership save_order log_order_change
    log_object_change order_response json_eq mark_reservation_by_order_as_completed
    reservation_by_order dict_get
paid_there = refl

placed_typed : is_order_status placed_order.status ≡ true
unfolding is_order_status type_values
placed_typed = refl

shop-IsTyped : IsTyped shop.orders
unfolding get
shop-IsTyped id o found =
    let own : placed_order ≡ o = ground arith in
    ap (λ x. is_order_status x.status) (sym own) ∙ placed_typed

Reach-IsTyped_example : is_order_status OrderStatus.paid ≡ true
Reach-IsTyped_example =
    Reach-IsTyped 30 (record placed_order { status = OrderStatus.paid }) shop-IsConsistent
      shop-IsTyped paying paid_there
