-- ===== src/Lifecycle.antt =====
-- How reservations and orders hang together: the invariant of the two tables.
pub mod Links
pub mod Steps
use fair_drop.Common.{ℕ, ◌≡◌, Bool, true, false, Option, some}
use fair_drop.Common.Table.{Table, get, IsKeyed}
use fair_drop.Models.{Reservation, Order, OrderStatus}
use fair_drop.Database.{Session}

-- The status of an order against that of its reservation.
abbrev pub agrees : OrderStatus → OrderStatus → Bool
agrees OrderStatus.pending OrderStatus.pending = true
agrees OrderStatus.paid OrderStatus.completed = true
agrees OrderStatus.cancelled OrderStatus.cancelled = true
agrees OrderStatus.cancelled OrderStatus.expired = true
agrees _ _ = false

abbrev pub IsBacked : Table Reservation → ℕ → Type 0
IsBacked reservations order_id =
    (id : ℕ) × (r : Reservation) × (get id reservations ≡ some r) × (r.order_id ≡ some order_id)

abbrev pub IsLink : Table Order → Reservation → ℕ → Type 0
IsLink orders r order_id =
    (o : Order) × (get order_id orders ≡ some o)
    × (o.user_id ≡ r.user_id)
    × (agrees o.status r.status ≡ true)

-- Keys are distinct; the order that a reservation names is there, has the same user and a status
-- that agrees; no two reservations name one order; and each order has a reservation.
pub record IsLinked (reservations : Table Reservation) (orders : Table Order) : Type 0 where
  pub reservations_keyed : IsKeyed reservations
  pub orders_keyed : IsKeyed orders
  pub linked :
      (id : ℕ) (r : Reservation) (order_id : ℕ)
      → get id reservations ≡ some r
      → r.order_id ≡ some order_id
      → IsLink orders r order_id
  pub single :
      (i : ℕ) (r : Reservation) (j : ℕ) (q : Reservation) (order_id : ℕ)
      → get i reservations ≡ some r
      → get j reservations ≡ some q
      → r.order_id ≡ some order_id
      → q.order_id ≡ some order_id
      → i ≡ j
  pub backed :
      (order_id : ℕ) (o : Order) → get order_id orders ≡ some o → IsBacked reservations order_id

abbrev pub IsConsistent : Session → Type 0
IsConsistent s = IsLinked s.reservations s.orders
