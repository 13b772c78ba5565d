-- ===== src/Inventory/Reserve/Outcome.antt =====
-- What a reservation that succeeds has done.
use fair_drop.Common.{
  ℕ, ◌-◌, ◌≤◌, ◌≡◌, inl, inr, String, none, some, [], ◌∷◌, ◌++◌, arith, Option-cases,
}
use fair_drop.Common.Table.{get, put}
use fair_drop.Exceptions.{ok}
use fair_drop.Models.{Product, Reservation}
use fair_drop.Database.{Session, check_product, update_product_row, insert_reservation}
use fair_drop.Config.{Settings}
use fair_drop.Inventory.Schemas.{ReservationCreate}
use fair_drop.Inventory.Reserve.{reserve_items, new_reservation}

module _ (settings : Settings) (now id user_id : ℕ) (idempotency_key : String)
    (d : ReservationCreate) (s : Session) where
  -- The stock falls by the quantity, which was there, and the reservation is a new row.
  pub reserve_items-ok :
      (r : Reservation) (s' : Session)
      → reserve_items settings now id user_id idempotency_key d s ≡ ok (r, s')
      → (p : Product) × (get d.product_id s.products ≡ some p)
        × (d.quantity ≤ p.qty_available)
        × (get id s.reservations ≡ none)
        × (r ≡ new_reservation settings now user_id idempotency_key d)
        × (s' ≡ record s {
          products =
              put d.product_id
                (record p { qty_available = p.qty_available - d.quantity })
                s.products;
          reservations = s.reservations ++ (id, r) ∷ [];
        })
  unfolding reserve_items update_product_row check_product insert_reservation
  reserve_items-ok r s' h = elim (Option-cases (get d.product_id s.products)) [
    | inl missing ↦ absurd (ground arith)
    | inr (p, found) ↦ (p, found, ground arith, ground arith, ground arith, ground arith)
  ]
