-- ===== src/Orders/Service/Outcome.antt =====
-- What each operation on an order has done, where it succeeds.
use fair_drop.Common.{
  ℕ, ◌≤◌, ◌≡◌, inl, inr, true, String, Option, none, some, [], ◌∷◌, ◌++◌, arith, Option-cases,
}
use fair_drop.Common.Table.{Table, get, put, IsKeyed}
use fair_drop.Exceptions.{ok, Result-cases}
use fair_drop.Json.{Dict}
use fair_drop.Models.{User, Product, Reservation, Order, OrderStatus, is_pending}
use fair_drop.Database.{Session, insert_order, insert_order_item}
use fair_drop.Security.{check_ownership, order_ownable}
use fair_drop.Inventory.Internal.{
  mark_reservation_by_order_as_completed, cancel_reservation_by_order_and_return_stock,
  reservation_by_order, close_reservation,
}
use fair_drop.Inventory.Internal.Outcome.{reservation_by_order-ok, close_reservation-ok, restocked}
use fair_drop.AuditLog.Changes.{log_object_change-frame}
use fair_drop.Orders.Service.{
  OrderCreate, find_reservation, new_order, new_order_item, create_order_from_reservation,
  log_order_change, save_order, get_order, confirm_order_payment, cancel_order,
}

log_order_change-frame :
    (u : User) (order_id : ℕ) (order : Order) (old : Option Dict) (action : String) (s : Session)
    → let s' = log_order_change u order_id order old action s in
      s' ≡ record s { audit_logs = s'.audit_logs }
unfolding log_order_change
log_order_change-frame u order_id order old action s =
    log_object_change-frame u.id order_id "order" action old _ [] s

pub save_order-frame :
    (u : User) (order_id : ℕ) (order : Order) (status : OrderStatus) (action : String) (s : Session)
    → let s' = save_order u order_id order status action s in
      s' ≡ record s {
        orders = put order_id (record order { status = status }) s.orders;
        audit_logs = s'.audit_logs;
      }
unfolding save_order
save_order-frame u order_id order status action s = log_order_change-frame u order_id _ _ action _

-- A new order for a reservation.
pub record IsCreated (now order_id item_id : ℕ) (u : User) (d : OrderCreate) (s s' : Session)
    (o : Order) : Type 0 where
  pub r : Reservation
  pub product : Product
  pub found : get d.reservation_id s.reservations ≡ some r
  pub owner : r.user_id ≡ u.id
  pub waiting : r.status ≡ OrderStatus.pending
  pub unexpired : now ≤ r.expires_at
  pub unused : r.order_id ≡ none
  pub priced : get r.product_id s.products ≡ some product
  pub fresh : get order_id s.orders ≡ none
  pub order : o ≡ new_order now u d r product
  pub products : s'.products ≡ s.products
  pub reservations :
      s'.reservations ≡ put d.reservation_id (record r { order_id = some order_id }) s.reservations
  pub orders : s'.orders ≡ s.orders ++ (order_id, o) ∷ []
  pub items : s'.order_items ≡ s.order_items ++ (item_id, new_order_item order_id r product) ∷ []

pub find_reservation-some :
    (id : ℕ) (u : User) (s : Session) (r : Reservation)
    → find_reservation id u s ≡ some r
    → (get id s.reservations ≡ some r) × (r.user_id ≡ u.id) × (r.status ≡ OrderStatus.pending)
unfolding find_reservation
find_reservation-some id u s r h = ground arith

-- An order is created only from a pending, unexpired reservation of the buyer that has no order yet,
-- at the product's current price; the reservation is linked to it, one item is written, and the
-- products are left as they are.
pub create-ok :
    (now order_id item_id : ℕ) (u : User) (d : OrderCreate) (s s' : Session) (o : Order)
    → create_order_from_reservation now order_id item_id u d s ≡ ok (o, s')
    → IsCreated now order_id item_id u d s s' o
unfolding create_order_from_reservation insert_order insert_order_item
create-ok now order_id item_id u d s s' o h =
    elim (Option-cases (find_reservation d.reservation_id u s)) [
      | inl missing ↦ absurd (ground arith)
      | inr (r, e) ↦ elim (Option-cases (get r.product_id s.products)) [
        | inl gone ↦ absurd (ground arith)
        | inr (p, known) ↦
            let o' = new_order now u d r p in
            let s₃ : Session = record s {
              orders = s.orders ++ (order_id, o') ∷ [];
              order_items = s.order_items ++ (item_id, new_order_item order_id r p) ∷ [];
              reservations =
                  put d.reservation_id (record r { order_id = some order_id }) s.reservations;
            } in
            let frame = log_order_change-frame u order_id o' none "create" s₃ in
            let (found, owner, waiting) = find_reservation-some d.reservation_id u s r e in
            record {
              r = r;
              product = p;
              found = found;
              owner = owner;
              waiting = waiting;
              unexpired = ground arith;
              unused = ground arith;
              priced = known;
              fresh = ground arith;
              order = ground arith;
              products = ground (arith, frame);
              reservations = ground (arith, frame);
              orders = ground (arith, frame);
              items = ground (arith, frame);
            }
      ]
    ]

pub get_order-ok :
    (order_id : ℕ) (u : User) (s : Session) (o : Order)
    → get_order order_id u s ≡ ok o
    → (get order_id s.orders ≡ some o) × (check_ownership u (order_ownable o) ≡ ok tt)
unfolding get_order
get_order-ok order_id u s o h = elim (Option-cases (get order_id s.orders)) [
  | inl missing ↦ absurd (ground arith)
  | inr (p, found) ↦ (ground arith, ground arith)
]

-- An order that was pending moves to `to`, its reservation to `to_r`, and `products` says what
-- becomes of the products.
pub record IsSettled (to to_r : OrderStatus)
    (products : Reservation → Table Product → Table Product) (order_id : ℕ) (u : User)
    (s s' : Session) (o' : Order) : Type 0 where
  pub o : Order
  pub i : ℕ
  pub r : Reservation
  pub found : get order_id s.orders ≡ some o
  pub allowed : check_ownership u (order_ownable o) ≡ ok tt
  pub waiting : o.status ≡ OrderStatus.pending
  pub reserved : get i s.reservations ≡ some r
  pub link : r.order_id ≡ some order_id
  pub result : o' ≡ record o { status = to }
  pub products' : s'.products ≡ products r s.products
  pub reservations : s'.reservations ≡ put i (record r { status = to_r }) s.reservations
  pub orders : s'.orders ≡ put order_id o' s.orders

abbrev pub as_they_are : Reservation → Table Product → Table Product
as_they_are r products = products

is_pending-eq : (status : OrderStatus) → is_pending status ≡ true → status ≡ OrderStatus.pending
is_pending-eq status h = ground arith

pub confirm_order_payment-ok :
    (order_id : ℕ) (u : User) (s s' : Session) (o' : Order)
    → IsKeyed s.reservations
    → confirm_order_payment order_id u s ≡ ok (o', s')
    → IsSettled OrderStatus.paid OrderStatus.completed as_they_are order_id u s s' o'
unfolding confirm_order_payment mark_reservation_by_order_as_completed
confirm_order_payment-ok order_id u s s' o' keyed h = elim (Result-cases (get_order order_id u s)) [
  | inr (e, failed) ↦ absurd (ground arith)
  | inl (o, got) ↦
      let t = save_order u order_id o OrderStatus.paid "payment" s in
      elim (Result-cases (reservation_by_order order_id t)) [
        | inr (e, failed) ↦ absurd (ground arith)
        | inl ((i, r), row) ↦
            let frame = save_order-frame u order_id o OrderStatus.paid "payment" s in
            let (found, allowed) = get_order-ok order_id u s o got in
            let (reserved, link) = reservation_by_order-ok order_id t i r (rw frame keyed) row in
            record {
              o = o;
              i = i;
              r = r;
              found = found;
              allowed = allowed;
              waiting = is_pending-eq o.status (ground arith);
              reserved = rw frame at reserved;
              link = link;
              result = ground arith;
              products' = ground (arith, frame);
              reservations = ground (arith, frame);
              orders = ground (arith, frame);
            }
      ]
]

pub cancel_order-ok :
    (order_id : ℕ) (u : User) (s s' : Session) (o' : Order)
    → IsKeyed s.reservations
    → cancel_order order_id u s ≡ ok (o', s')
    → IsSettled OrderStatus.cancelled OrderStatus.cancelled restocked order_id u s s' o'
unfolding cancel_order cancel_reservation_by_order_and_return_stock
cancel_order-ok order_id u s s' o' keyed h = elim (Result-cases (get_order order_id u s)) [
  | inr (e, failed) ↦ absurd (ground arith)
  | inl (o, got) ↦
      let t = save_order u order_id o OrderStatus.cancelled "cancel" s in
      elim (Result-cases (reservation_by_order order_id t)) [
        | inr (e, failed) ↦ absurd (ground arith)
        | inl ((i, r), row) ↦ elim (Result-cases (close_reservation i r OrderStatus.cancelled t)) [
          | inr (e, failed) ↦ absurd (ground arith)
          | inl (t', closed) ↦
              let frame = save_order-frame u order_id o OrderStatus.cancelled "cancel" s in
              let closing = close_reservation-ok i r OrderStatus.cancelled t t' closed in
              let (found, allowed) = get_order-ok order_id u s o got in
              let (reserved, link) = reservation_by_order-ok order_id t i r (rw frame keyed) row in
              record {
                o = o;
                i = i;
                r = r;
                found = found;
                allowed = allowed;
                waiting = is_pending-eq o.status (ground arith);
                reserved = rw frame at reserved;
                link = link;
                result = ground arith;
                products' = ground (arith, frame, closing);
                reservations = ground (arith, frame, closing);
                orders = ground (arith, frame, closing);
              }
        ]
      ]
]
