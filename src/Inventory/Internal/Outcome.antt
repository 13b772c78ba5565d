-- ===== src/Inventory/Internal/Outcome.antt =====
-- What the end of a reservation has done, where it succeeds, and when it does.
use fair_drop.Common.{ℕ, ◌+◌, ◌≡◌, true, [], ◌∷◌, none, some, arith}
use fair_drop.Common.Table.{Table, get, put, select, IsKeyed}
use fair_drop.Common.Table.Select.{select_sound, select_one}
use fair_drop.Exceptions.{ok, not_found, ◌>>=◌, or_raise, scalar_one_or_none}
use fair_drop.Models.{Product, Reservation, OrderStatus}
use fair_drop.Database.{Session, check_product, update_product_row}
use fair_drop.Inventory.Internal.{close_reservation, return_stock, reservation_by_order, has_order}

-- The products after the units of the reservation have come back.
abbrev pub restocked : Reservation → Table Product → Table Product
restocked r products = elim (get r.product_id products) [
  | none ↦ products
  | some p ↦
      put r.product_id (record p { qty_available = p.qty_available + r.qty_reserved }) products
]

pub close_reservation-ok :
    (id : ℕ) (r : Reservation) (status : OrderStatus) (s s' : Session)
    → close_reservation id r status s ≡ ok s'
    → s' ≡ record s {
      products = restocked r s.products;
      reservations = put id (record r { status = status }) s.reservations;
    }
unfolding close_reservation return_stock update_product_row check_product
close_reservation-ok id r status s s' h = ground arith

found_row :
    (rows : Table Reservation) (i : ℕ) (r : Reservation)
    → (scalar_one_or_none rows >>= λ found. or_raise found not_found) ≡ ok (i, r)
    → rows ≡ (i, r) ∷ []
found_row [] i r h = cc
found_row (row ∷ []) i r h = cc
found_row (row ∷ next ∷ rows) i r h = cc

has_order-some :
    (order_id : ℕ) (r : Reservation) → has_order order_id r ≡ true → r.order_id ≡ some order_id
has_order-some order_id r h = ground arith

-- The reservation that is found by its order is in the table, and has that order.
pub reservation_by_order-ok :
    (order_id : ℕ) (s : Session) (i : ℕ) (r : Reservation)
    → IsKeyed s.reservations
    → reservation_by_order order_id s ≡ ok (i, r)
    → (get i s.reservations ≡ some r) × (r.order_id ≡ some order_id)
unfolding reservation_by_order
reservation_by_order-ok order_id s i r keyed h =
    let row =
      (rw (found_row (select (has_order order_id) s.reservations) i r h) at
        (select_sound (has_order order_id) s.reservations keyed)).0 in
    (row.0, ground arith)

-- Where one reservation has the order, it is found.
pub reservation_by_order-found :
    (order_id : ℕ) (s : Session) (i : ℕ) (r : Reservation)
    → IsKeyed s.reservations
    → get i s.reservations ≡ some r
    → r.order_id ≡ some order_id
    → ((j : ℕ) (q : Reservation)
        → get j s.reservations ≡ some q
        → q.order_id ≡ some order_id
        → j ≡ i)
    → reservation_by_order order_id s ≡ ok (i, r)
unfolding reservation_by_order
reservation_by_order-found order_id s i r keyed found link only = rw (
    select_one (has_order order_id) i r s.reservations keyed found (ground arith)
      (λ j q e hit. only j q e (has_order-some order_id q hit)))
