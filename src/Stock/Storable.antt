-- ===== src/Stock/Storable.antt =====
-- The end of a reservation succeeds where the columns hold the units that come back.
use fair_drop.Common.{ℕ, ◌≡◌, inl, inr, true, some, arith, Option-cases}
use fair_drop.Common.Table.{get, put}
use fair_drop.Common.Table.Laws.{le-sum}
use fair_drop.Exceptions.{ok}
use fair_drop.Models.{Reservation, OrderStatus}
use fair_drop.Database.{Session, update_product_row, check_product}
use fair_drop.Inventory.Internal.{close_reservation, return_stock}
use fair_drop.Inventory.Internal.Outcome.{restocked}
use fair_drop.Stock.{held, holds, IsStorable}

pub close_reservation_total :
    (i : ℕ) (r : Reservation) (status : OrderStatus) (s : Session)
    → get i s.reservations ≡ some r
    → holds r.status ≡ true
    → IsStorable s
    → close_reservation i r status s
      ≡ ok (record s {
        products = restocked r s.products;
        reservations = put i (record r { status = status }) s.reservations;
      })
unfolding close_reservation return_stock update_product_row check_product
close_reservation_total i r status s reserved on f =
    elim (Option-cases (get r.product_id s.products)) [
      | inl gone ↦ ground arith
      | inr (p, known) ↦ ground (
        arith,
        f.fits r.product_id p known,
        le-sum (held r.product_id) i r s.reservations reserved,
      )
    ]
