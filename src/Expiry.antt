-- ===== src/Expiry.antt =====
-- app/services/inventory/tasks.py: the periodic task that releases expired reservations.
pub mod Release
pub mod Sweep
pub mod Cancelled
pub mod Loaded
pub mod Complete
use fair_drop.Common.{ℕ, Bool, not, ◌&&◌, Option, none, some, List, [], ◌∷◌, ltb, if◌then◌else◌}
use fair_drop.Common.Table.{Table, get, select}
use fair_drop.Exceptions.{Error, Result, ok, err, ◌>>=◌}
use fair_drop.Models.{OrderStatus, Reservation, is_pending}
use fair_drop.Database.{Session}
use fair_drop.Inventory.Internal.{close_reservation}
use fair_drop.Orders.Service.{cancel_order_by_system}

-- `if reservation.order_id is not None`
unfoldable pub cancel_order_if : Option ℕ → Session → Result Session
cancel_order_if none s = ok s
cancel_order_if (some order_id) s = cancel_order_by_system order_id s

unfoldable pub release_row : ℕ → Reservation → Session → Result Session
release_row id r s = do
  s' ← close_reservation id r OrderStatus.expired s
  cancel_order_if r.order_id s'

-- The body of `begin_nested`: a reservation that is gone or no longer PENDING is passed over.
pub release_reservation : ℕ → Session → Result Session
release_reservation id s = elim (get id s.reservations) [
  | none ↦ ok s
  | some r ↦ if is_pending r.status then release_row id r s else ok s
]

-- The loop: an exception rolls back its own reservation, and the next one follows.
pub committed : Session → Result Session → Session
committed s (ok s') = s'
committed s (err _) = s

unfoldable pub release_each : Table Reservation → Session → Session
unfolding committed
release_each [] s = s
release_each ((id, _) ∷ rows) s = release_each rows (committed s (release_reservation id s))

-- `status == PENDING and expires_at < now`
abbrev pub is_expired : ℕ → Reservation → Bool
is_expired now r = is_pending r.status && ltb r.expires_at now

unfoldable pub release_expired_reservations : ℕ → Session → Session
release_expired_reservations now s = release_each (select (is_expired now) s.reservations) s
