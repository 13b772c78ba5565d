-- ===== src/System.antt =====
-- The reservation lifecycle as a system: the requests of users and the turns of the periodic task's
-- loop, in any order, each one transaction. They lock the rows that they change
-- (`with_for_update`), so transactions are taken one at a time. The turns of a sweep are steps of
-- their own, since app/services/inventory/tasks.py commits after each, and between them others
-- commit.
pub mod Oversell
pub mod Orders
pub mod Typed
pub mod Sweeps
use fair_drop.Common.{ℕ, ◌≡◌, Option, String}
use fair_drop.Exceptions.{ok}
use fair_drop.Models.{User, Reservation, Order}
use fair_drop.Database.{Session}
use fair_drop.Config.{Settings}
use fair_drop.Inventory.Schemas.{ReservationCreate}
use fair_drop.Inventory.Reserve.{reserve_items}
use fair_drop.Orders.Service.{
  OrderCreate, create_order_from_reservation, confirm_order_payment, cancel_order,
}
use fair_drop.Expiry.Loaded.{release_turn, IsCurrent}

-- A request that raises changes nothing, and is no step.
pub data Step (s s' : Session) : Type 0 where
  reserve :
      (settings : Settings) (now id user_id : ℕ) (key : String) (d : ReservationCreate)
      (r : Reservation)
      → reserve_items settings now id user_id key d s ≡ ok (r, s')
      → Step s s'
  order :
      (now order_id item_id : ℕ) (u : User) (d : OrderCreate) (o : Order)
      → create_order_from_reservation now order_id item_id u d s ≡ ok (o, s')
      → Step s s'
  pay :
      (order_id : ℕ) (u : User) (o : Order)
      → confirm_order_payment order_id u s ≡ ok (o, s')
      → Step s s'
  cancel :
      (order_id : ℕ) (u : User) (o : Order) → cancel_order order_id u s ≡ ok (o, s') → Step s s'
  -- the reservation's key, and what the session of the sweep has loaded of the product
  release : (loaded : Option ℕ) (id : ℕ) → s' ≡ release_turn loaded id s → Step s s'

pub data Reach (s : Session) : Session → Type 0 where
  here : Reach s s
  next : {t u : Session} → Reach s t → Step t u → Reach s u

-- No sweep releases a reservation of a product that has changed since the sweep loaded it.
abbrev pub IsCurrentStep : {s s' : Session} → Step s s' → Type 0
IsCurrentStep {s} (release loaded id e) = IsCurrent loaded id s
IsCurrentStep _ = Unit

abbrev pub IsUndisturbed : {s t : Session} → Reach s t → Type 0
IsUndisturbed here = Unit
IsUndisturbed (next r st) = IsUndisturbed r × IsCurrentStep st
