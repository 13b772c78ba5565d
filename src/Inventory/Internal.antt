-- ===== src/Inventory/Internal.antt =====
-- app/services/inventory/internal.py: the ends of a reservation, and the return of its stock.
pub mod Outcome
use fair_drop.Common.{ℕ, ◌+◌, Bool, false, Option, none, some, ◌==◌}
use fair_drop.Common.Table.{get, select}
use fair_drop.Exceptions.{
  Error, Result, ok, err, not_found, ◌>>=◌, ◌>>◌, or_raise, scalar_one_or_none,
}
use fair_drop.Models.{OrderStatus, Product, Reservation}
use fair_drop.Database.{Session, update_product_row, update_reservation_row}

-- `Reservation.order_id == order_id`, which no row without an order satisfies.
abbrev pub has_order : ℕ → Reservation → Bool
has_order order_id r = elim r.order_id [ none ↦ false | some o ↦ o == order_id ]

-- `if product: product.qty_available += reservation.qty_reserved`
unfoldable pub return_stock : Reservation → Session → Result Session
return_stock r s = elim (get r.product_id s.products) [
  | none ↦ ok s
  | some p ↦
      update_product_row r.product_id
        (record p { qty_available = p.qty_available + r.qty_reserved }) s
]

-- The end of a reservation that gives its stock back.
unfoldable pub close_reservation : ℕ → Reservation → OrderStatus → Session → Result Session
close_reservation id r status s = do
  s' ← return_stock r s
  ok (update_reservation_row id (record r { status = status }) s')

unfoldable pub mark_reservation_as_completed : ℕ → Session → Result Session
mark_reservation_as_completed reservation_id s = do
  r ← or_raise (get reservation_id s.reservations) not_found
  ok (update_reservation_row reservation_id (record r { status = OrderStatus.completed }) s)

-- The row of an order's reservation, with its key.
unfoldable pub reservation_by_order : ℕ → Session → Result (ℕ × Reservation)
reservation_by_order order_id s = do
  found ← scalar_one_or_none (select (has_order order_id) s.reservations)
  or_raise found not_found

unfoldable pub mark_reservation_by_order_as_completed : ℕ → Session → Result Session
mark_reservation_by_order_as_completed order_id s = do
  row ← reservation_by_order order_id s
  ok (update_reservation_row row.0 (record row.1 { status = OrderStatus.completed }) s)

unfoldable pub cancel_reservation_and_return_stock : ℕ → Session → Result Session
cancel_reservation_and_return_stock reservation_id s = do
  r ← or_raise (get reservation_id s.reservations) not_found
  close_reservation reservation_id r OrderStatus.cancelled s

unfoldable pub cancel_reservation_by_order_and_return_stock : ℕ → Session → Result Session
cancel_reservation_by_order_and_return_stock order_id s = do
  row ← reservation_by_order order_id s
  close_reservation row.0 row.1 OrderStatus.cancelled s

unfoldable pub ensure_product_exists : ℕ → Session → Result (Unit {0})
ensure_product_exists product_id s = do _ ← or_raise (get product_id s.products) not_found; ok tt
