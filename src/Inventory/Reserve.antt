-- ===== src/Inventory/Reserve.antt =====
-- `InventoryService.reserve_items` of app/services/inventory/service.py.
pub mod Outcome
pub mod Keys
pub mod Accepted
use fair_drop.Common.{ℕ, ◌+◌, ◌-◌, ◌*◌, Bool, String, Option, none, some, ltb}
use fair_drop.Common.Table.{get}
use fair_drop.Exceptions.{
  Error, Result, ok, err, not_found, conflict, insufficient_inventory, integrity_error, ◌>>=◌, ◌>>◌,
  raise_if, or_raise,
}
use fair_drop.Models.{OrderStatus, Product, Reservation}
use fair_drop.Database.{Session, update_product_row, insert_reservation}
use fair_drop.Config.{Settings, microseconds_per_minute}
use fair_drop.Inventory.Schemas.{ReservationCreate}

-- `except IntegrityError: raise ConflictError`
abbrev pub integrity_to_conflict {ℓ} : {A : Type ℓ} → Result A → Result A
integrity_to_conflict (err integrity_error) = err conflict
integrity_to_conflict r = r

abbrev pub new_reservation : Settings → ℕ → ℕ → String → ReservationCreate → Reservation
new_reservation settings now user_id idempotency_key reservation_data = record {
  qty_reserved = reservation_data.quantity;
  user_id = user_id;
  product_id = reservation_data.product_id;
  status = OrderStatus.pending;
  idempotency_key = idempotency_key;
  order_id = none;
  expires_at = now + settings.reserve_timeout_minutes * microseconds_per_minute;
}

-- `id` is the key that `uuid4` draws.
unfoldable pub reserve_items :
    Settings → ℕ → ℕ → ℕ → String → ReservationCreate → Session → Result (Reservation × Session)
reserve_items settings now id user_id idempotency_key reservation_data s = do
  product ← or_raise (get reservation_data.product_id s.products) not_found
  raise_if (ltb product.qty_available reservation_data.quantity) insufficient_inventory
  let r = new_reservation settings now user_id idempotency_key reservation_data
  s' ← integrity_to_conflict (do
    s' ←
        update_product_row reservation_data.product_id
          (record product { qty_available = product.qty_available - reservation_data.quantity }) s
    insert_reservation id r s')
  ok (r, s')
