-- ===== src/Lifecycle/Steps.antt =====
-- Each operation on a reservation or an order keeps the invariant and the stock.
use fair_drop.Common.{ℕ, ◌≡◌, refl, String, some, arith}
use fair_drop.Common.Table.{Table, get}
use fair_drop.Exceptions.{ok}
use fair_drop.Models.{User, Reservation, Order, OrderStatus}
use fair_drop.Database.{Session}
use fair_drop.Config.{Settings}
use fair_drop.Inventory.Schemas.{ReservationCreate}
use fair_drop.Inventory.Reserve.{reserve_items, new_reservation}
use fair_drop.Inventory.Reserve.Outcome.{reserve_items-ok}
use fair_drop.Inventory.Internal.Outcome.{restocked}
use fair_drop.Orders.Service.{
  OrderCreate, create_order_from_reservation, confirm_order_payment, cancel_order,
}
use fair_drop.Orders.Service.Outcome.{
  IsCreated, IsSettled, create-ok, confirm_order_payment-ok, cancel_order-ok, as_they_are,
}
use fair_drop.Stock.{Conserves}
use fair_drop.Stock.Conservation.{take_stock-Conserves, keep_stock-Conserves, close-Conserves}
use fair_drop.Lifecycle.{IsConsistent, IsLinked}
use fair_drop.Lifecycle.Links.{add_reservation-IsLinked, put_pair-IsLinked, put_new-IsLinked}

-- What a step of the lifecycle keeps.
pub record IsSafe (s s' : Session) : Type 0 where
  pub consistent : IsConsistent s'
  pub conserves : Conserves s s'

-- Only the products and the reservations count.
pub Conserves-of_eq :
    (s t t' : Session)
    → t'.products ≡ t.products
    → t'.reservations ≡ t.reservations
    → Conserves s t
    → Conserves s t'
Conserves-of_eq s t t' p r c = record {
  stays = λ id h. rw p (c.stays id h);
  same = λ id h. rw (p, r) (c.same id h);
}

pub reserve_items-IsSafe :
    (settings : Settings) (now id user_id : ℕ) (key : String) (d : ReservationCreate)
    (s s' : Session) (r : Reservation)
    → IsConsistent s
    → reserve_items settings now id user_id key d s ≡ ok (r, s')
    → IsSafe s s'
reserve_items-IsSafe settings now id user_id key d s s' r c h =
    let (p, found, fits, new, is_new, after) =
      reserve_items-ok settings now id user_id key d s r s' h in
    rw (after, is_new)
      (record {
        consistent = add_reservation-IsLinked s.reservations s.orders c id _ new refl;
        conserves =
            take_stock-Conserves id (new_reservation settings now user_id key d) p s found refl
              fits;
      })

IsCreated-IsSafe :
    (now order_id item_id : ℕ) (u : User) (d : OrderCreate) (s s' : Session) (o : Order)
    → IsConsistent s
    → IsCreated now order_id item_id u d s s' o
    → IsSafe s s'
IsCreated-IsSafe now order_id item_id u d s s' o c e =
    let r' : Reservation = record (e.r) { order_id = some order_id } in
    record {
      consistent =
          rw (e.reservations, e.orders)
            (put_new-IsLinked s.reservations s.orders c d.reservation_id e.r r' e.found order_id o
              e.fresh e.unused refl (ground (arith, e.order, e.owner))
              (ground (arith, e.order, e.waiting)));
      conserves =
          Conserves-of_eq s _ s' e.products e.reservations
            (keep_stock-Conserves d.reservation_id e.r r' s e.found refl refl refl);
    }

pub create_order-IsSafe :
    (now order_id item_id : ℕ) (u : User) (d : OrderCreate) (s s' : Session) (o : Order)
    → IsConsistent s
    → create_order_from_reservation now order_id item_id u d s ≡ ok (o, s')
    → IsSafe s s'
create_order-IsSafe now order_id item_id u d s s' o c h =
    IsCreated-IsSafe now order_id item_id u d s s' o c (create-ok now order_id item_id u d s s' o h)

-- The reservation of a pending order is pending.
pub link_pending :
    (R : Table Reservation) (O : Table Order) (i order_id : ℕ) (r : Reservation) (o : Order)
    → IsLinked R O
    → get i R ≡ some r
    → r.order_id ≡ some order_id
    → get order_id O ≡ some o
    → o.status ≡ OrderStatus.pending
    → (r.status ≡ OrderStatus.pending) × (o.user_id ≡ r.user_id)
link_pending R O i order_id r o c reserved link found waiting =
    let (p, at, owner, fits) = c.linked i r order_id reserved link in (ground arith, ground arith)

-- A settled order: paid, or cancelled with its stock returned.
module _ (order_id : ℕ) (u : User) (s s' : Session) (o' : Order) (c : IsConsistent s) where
  paid-IsSafe :
      IsSettled OrderStatus.paid OrderStatus.completed as_they_are order_id u s s' o' → IsSafe s s'
  paid-IsSafe e =
      let (waiting, owner) =
        link_pending s.reservations s.orders e.i order_id e.r e.o c e.reserved e.link e.found
          e.waiting in
      let r' : Reservation = record (e.r) { status = OrderStatus.completed } in
      record {
        consistent =
            rw (e.reservations, e.orders)
              (put_pair-IsLinked s.reservations s.orders c e.i e.r r' e.reserved order_id e.o o'
                e.found e.link refl refl (ground (arith, e.result)) (ground (arith, e.result)));
        conserves =
            Conserves-of_eq s _ s' e.products' e.reservations
              (keep_stock-Conserves e.i e.r r' s e.reserved refl refl (ground arith));
      }

  cancelled-IsSafe :
      IsSettled OrderStatus.cancelled OrderStatus.cancelled restocked order_id u s s' o'
      → IsSafe s s'
  cancelled-IsSafe e =
      let (waiting, owner) =
        link_pending s.reservations s.orders e.i order_id e.r e.o c e.reserved e.link e.found
          e.waiting in
      let r' : Reservation = record (e.r) { status = OrderStatus.cancelled } in
      record {
        consistent =
            rw (e.reservations, e.orders)
              (put_pair-IsLinked s.reservations s.orders c e.i e.r r' e.reserved order_id e.o o'
                e.found e.link refl refl (ground (arith, e.result)) (ground (arith, e.result)));
        conserves =
            Conserves-of_eq s _ s' e.products' e.reservations
              (close-Conserves e.i e.r OrderStatus.cancelled s e.reserved (ground arith) refl);
      }

  pub confirm_order_payment-IsSafe : confirm_order_payment order_id u s ≡ ok (o', s') → IsSafe s s'
  confirm_order_payment-IsSafe h =
      paid-IsSafe (confirm_order_payment-ok order_id u s s' o' c.reservations_keyed h)

  pub cancel_order-IsSafe : cancel_order order_id u s ≡ ok (o', s') → IsSafe s s'
  cancel_order-IsSafe h =
      cancelled-IsSafe (cancel_order-ok order_id u s s' o' c.reservations_keyed h)
