-- ===== src/Orders/Settlement.antt =====
-- A pending order is settled once: its owner can always pay for it, or cancel it where the returned
-- units fit the column, and after that neither works again.
use fair_drop.Common.{ℕ, ◌≡◌, ◌⊎◌, refl, inl, inr, false, some, arith, ap}
use fair_drop.Common.Table.{get, put}
use fair_drop.Common.Table.Laws.{get-put}
use fair_drop.Exceptions.{Result, ok, err, conflict, permission_denied}
use fair_drop.Models.{User, Order, OrderStatus, is_pending}
use fair_drop.Database.{Session}
use fair_drop.Security.{check_ownership, order_ownable}
use fair_drop.Security.Access.{check_ownership-order}
use fair_drop.Inventory.Internal.{
  mark_reservation_by_order_as_completed, cancel_reservation_by_order_and_return_stock,
  reservation_by_order,
}
use fair_drop.Inventory.Internal.Outcome.{reservation_by_order-found, restocked}
use fair_drop.Orders.Service.{get_order, confirm_order_payment, cancel_order, save_order}
use fair_drop.Orders.Service.Outcome.{
  IsSettled, save_order-frame, confirm_order_payment-ok, cancel_order-ok, as_they_are,
}
use fair_drop.Lifecycle.Steps.{link_pending}
use fair_drop.Stock.{IsStorable}
use fair_drop.Stock.Storable.{close_reservation_total}
use fair_drop.Lifecycle.{IsConsistent}

abbrev pub IsRefused : Result (Order × Session) → Type 0
IsRefused r = (r ≡ err conflict) ⊎ (r ≡ err permission_denied)

-- An order that is no longer pending.
pub refused :
    (order_id : ℕ) (u : User) (s : Session) (o : Order)
    → get order_id s.orders ≡ some o
    → is_pending o.status ≡ false
    → IsRefused (confirm_order_payment order_id u s) × IsRefused (cancel_order order_id u s)
unfolding confirm_order_payment cancel_order get_order
refused order_id u s o found over = ground (arith, check_ownership-order u o)

-- Once an order is paid for or cancelled, every further attempt of any user to pay for it or to
-- cancel it is refused, with a conflict or for want of permission.
pub settled_once :
    (order_id : ℕ) (u v : User) (s s' : Session) (o' : Order)
    → IsConsistent s
    → (confirm_order_payment order_id u s ≡ ok (o', s')) ⊎ (cancel_order order_id u s ≡ ok (o', s'))
    → IsRefused (confirm_order_payment order_id v s') × IsRefused (cancel_order order_id v s')
settled_once order_id u v s s' o' c (inl paid) =
    let e : IsSettled OrderStatus.paid OrderStatus.completed as_they_are order_id u s s' o' =
      confirm_order_payment-ok order_id u s s' o' c.reservations_keyed paid in
    refused order_id v s' o'
      (rw (e.orders) (rw (get-put order_id order_id o' e.o s.orders e.found) (ground arith)))
      (rw (e.result) refl)
settled_once order_id u v s s' o' c (inr cancelled) =
    let e : IsSettled OrderStatus.cancelled OrderStatus.cancelled restocked order_id u s s' o' =
      cancel_order-ok order_id u s s' o' c.reservations_keyed cancelled in
    refused order_id v s' o'
      (rw (e.orders) (rw (get-put order_id order_id o' e.o s.orders e.found) (ground arith)))
      (rw (e.result) refl)

-- From consistent tables, a user who may access a pending order can pay for it.
pub confirm_order_payment_total :
    (order_id : ℕ) (u : User) (s : Session) (o : Order)
    → IsConsistent s
    → get order_id s.orders ≡ some o
    → o.status ≡ OrderStatus.pending
    → check_ownership u (order_ownable o) ≡ ok tt
    → (s' : Session) × (confirm_order_payment order_id u s
        ≡ ok (record o { status = OrderStatus.paid }, s'))
unfolding confirm_order_payment get_order mark_reservation_by_order_as_completed
confirm_order_payment_total order_id u s o c found waiting allowed =
    let t = save_order u order_id o OrderStatus.paid "payment" s in
    let frame = save_order-frame u order_id o OrderStatus.paid "payment" s in
    let (i, r, reserved, link) = c.backed order_id o found in
    let row : reservation_by_order order_id t ≡ ok (i, r) =
      reservation_by_order-found order_id t i r (rw frame c.reservations_keyed) (rw frame reserved)
        link (λ j q e l. c.single j q i r order_id (rw frame at e) reserved l link) in
    (
      record t {
        reservations = put i (record r { status = OrderStatus.completed }) t.reservations;
      },
      ground arith,
    )

-- Only the products and the reservations count.
IsStorable-frame :
    (s t : Session)
    → t.products ≡ s.products
    → t.reservations ≡ s.reservations
    → IsStorable s
    → IsStorable t
IsStorable-frame s t p r f = record {
  fits = λ id q found. rw r (rw p (f.fits id q (rw p at found)));
}

-- From consistent tables whose columns hold the returned units, a user who may access a pending
-- order can cancel it.
pub cancel_order_total :
    (order_id : ℕ) (u : User) (s : Session) (o : Order)
    → IsConsistent s
    → IsStorable s
    → get order_id s.orders ≡ some o
    → o.status ≡ OrderStatus.pending
    → check_ownership u (order_ownable o) ≡ ok tt
    → (s' : Session) × (cancel_order order_id u s
        ≡ ok (record o { status = OrderStatus.cancelled }, s'))
unfolding cancel_order get_order cancel_reservation_by_order_and_return_stock
cancel_order_total order_id u s o c f found waiting allowed =
    let t = save_order u order_id o OrderStatus.cancelled "cancel" s in
    let frame = save_order-frame u order_id o OrderStatus.cancelled "cancel" s in
    let (i, r, reserved, link) = c.backed order_id o found in
    let row : reservation_by_order order_id t ≡ ok (i, r) =
      reservation_by_order-found order_id t i r (rw frame c.reservations_keyed) (rw frame reserved)
        link (λ j q e l. c.single j q i r order_id (rw frame at e) reserved l link) in
    let (waits, owner) =
      link_pending s.reservations s.orders i order_id r o c reserved link found waiting in
    let closed =
      close_reservation_total i r OrderStatus.cancelled t (rw frame reserved) (ground arith)
        (IsStorable-frame s t (ap (λ x. x.products) frame) (ap (λ x. x.reservations) frame) f) in
    (
      record t {
        products = restocked r t.products;
        reservations = put i (record r { status = OrderStatus.cancelled }) t.reservations;
      },
      ground arith,
    )
