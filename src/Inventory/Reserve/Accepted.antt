-- ===== src/Inventory/Reserve/Accepted.antt =====
-- When `reserve_items` succeeds.
use fair_drop.Common.{
  ℕ, ◌-◌, ◌≤◌, ◌≡◌, ◌↔◌, inl, inr, Option-cases, true, String, none, some, [], ◌∷◌, ◌++◌, arith,
}
use fair_drop.Common.Table.{get, put, select}
use fair_drop.Common.Table.Laws.{get-put}
use fair_drop.Exceptions.{ok}
use fair_drop.Models.{Product, Reservation}
use fair_drop.Database.{
  Session, check_product, update_product_row, insert_reservation, is_some, is_empty, integer_max,
}
use fair_drop.Config.{Settings}
use fair_drop.Inventory.Schemas.{ReservationCreate}
use fair_drop.Inventory.Reserve.{reserve_items, new_reservation}
use fair_drop.Inventory.Reserve.Keys.{same_key}

-- Where the product has the quantity, it and the row left can be stored, the keys are fresh, and the user is there,
-- the reservation goes through: the stock falls by the quantity, and one row is added.
reserve_items_total :
    (settings : Settings) (now id user_id : ℕ) (key : String) (d : ReservationCreate) (s : Session)
    (p : Product)
    → get d.product_id s.products ≡ some p
    → d.quantity ≤ p.qty_available
    → d.quantity ≤ integer_max
    → check_product (record p { qty_available = p.qty_available - d.quantity }) ≡ ok tt
    → get id s.reservations ≡ none
    → is_empty (select (same_key key) s.reservations) ≡ true
    → is_some (get user_id s.users) ≡ true
    → reserve_items settings now id user_id key d s
      ≡ ok (
        new_reservation settings now user_id key d,
        record s {
          products =
              put d.product_id
                (record p { qty_available = p.qty_available - d.quantity })
                s.products;
          reservations = s.reservations ++ (id, new_reservation settings now user_id key d) ∷ [];
        },
      )
unfolding reserve_items update_product_row check_product insert_reservation
reserve_items_total settings now id user_id key d s p known fits small storable fresh unused user =
    let there =
      get-put d.product_id d.product_id (record p { qty_available = p.qty_available - d.quantity })
        p s.products known in
    ground (arith, there)

-- What a reservation asks of the tables, and what it leaves.
abbrev pub IsReserved :
    Settings → ℕ → ℕ → ℕ → String → ReservationCreate → Session → Reservation → Session → Type 0
IsReserved settings now id user_id key d s r s' =
    (p : Product) × (get d.product_id s.products ≡ some p)
    × (d.quantity ≤ p.qty_available)
    × (d.quantity ≤ integer_max)
    × (check_product (record p { qty_available = p.qty_available - d.quantity }) ≡ ok tt)
    × (get id s.reservations ≡ none)
    × (is_empty (select (same_key key) s.reservations) ≡ true)
    × (is_some (get user_id s.users) ≡ true)
    × (r ≡ new_reservation settings now user_id key d)
    × (s' ≡ record s {
      products =
          put d.product_id (record p { qty_available = p.qty_available - d.quantity }) s.products;
      reservations = s.reservations ++ (id, r) ∷ [];
    })

-- `reserve_items` succeeds exactly where the product has the quantity, it and the row left can be stored, the
-- reservation's key and the idempotency key are fresh, and the user is there; then the stock falls by
-- the quantity and the one new row is added. The product's status is not among the conditions.
pub reserve_items_iff :
    (settings : Settings) (now id user_id : ℕ) (key : String) (d : ReservationCreate)
    (s s' : Session) (r : Reservation)
    → (reserve_items settings now id user_id key d s ≡ ok (r, s'))
      ↔ IsReserved settings now id user_id key d s r s'
unfolding reserve_items update_product_row check_product insert_reservation
reserve_items_iff settings now id user_id key d s s' r = (
  (λ h. elim (Option-cases (get d.product_id s.products)) [
    | inl missing ↦ absurd (ground arith)
    | inr (p, found) ↦ (
      p,
      found,
      ground arith,
      ground arith,
      ground arith,
      ground arith,
      ground arith,
      ground arith,
      ground arith,
      ground arith,
    )
  ]),
  λ (p, known, fits, small, storable, fresh, unused, user, made, after).
      rw (after, made)
        (reserve_items_total settings now id user_id key d s p known fits small storable fresh
          unused user),
)
