-- ===== src/Orders/Service/Accepted.antt =====
-- When `create_order_from_reservation` succeeds.
use fair_drop.Common.{ℕ, ◌*◌, ◌≤◌, ◌<◌, ◌≡◌, true, none, some}
use fair_drop.Common.Table.{get}
use fair_drop.Models.{User, Product, Reservation, OrderStatus}
use fair_drop.Database.{Session, is_some, integer_max, numeric_limit}
use fair_drop.Orders.Service.{OrderCreate}

-- What an order asks of the tables, apart from what `IsCreated` says.
abbrev pub IsOrderable : ℕ → ℕ → ℕ → User → OrderCreate → Session → Type 0
IsOrderable now order_id item_id u d s =
    (r : Reservation) × (p : Product) × (get d.reservation_id s.reservations ≡ some r)
    × (r.user_id ≡ u.id)
    × (r.status ≡ OrderStatus.pending)
    × (now ≤ r.expires_at)
    × (r.order_id ≡ none)
    × (get r.product_id s.products ≡ some p)
    × (p.price < numeric_limit)
    × (p.price * r.qty_reserved < numeric_limit)
    × (r.qty_reserved ≤ integer_max)
    × (get order_id s.orders ≡ none)
    × (get item_id s.order_items ≡ none)
    × (is_some (get u.id s.users) ≡ true)
