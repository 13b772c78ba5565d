-- ===== src/Stock/Conservation.antt =====
-- No step of a reservation's life makes or loses a unit of stock.
use fair_drop.Common.{
  ℕ, ◌+◌, ◌-◌, ◌≤◌, ◌≡◌, refl, inl, inr, ◌∙◌, true, false, some, [], ◌∷◌, ◌++◌, arith, Option-cases,
}
use fair_drop.Common.Table.{get, put}
use fair_drop.Common.Table.Laws.{get-put, sum-put, sum-append}
use fair_drop.Models.{Product, Reservation, OrderStatus}
use fair_drop.Database.{Session}
use fair_drop.Inventory.Internal.Outcome.{restocked}
use fair_drop.Stock.{held, holds, Conserves}

pub Conserves-refl : (s : Session) → Conserves s s
Conserves-refl s = record { stays = λ id h. h; same = λ id h. refl }

pub Conserves-trans : (s t u : Session) → Conserves s t → Conserves t u → Conserves s u
Conserves-trans s t u a b = record {
  stays = λ id h. b.stays id (a.stays id h);
  same = λ id h. b.same id (a.stays id h) ∙ a.same id h;
}

-- Taking units from a product into a new reservation.
module _ (id : ℕ) (r : Reservation) (p : Product) (s : Session) where
  pub take_stock-Conserves :
      get r.product_id s.products ≡ some p
      → holds r.status ≡ true
      → r.qty_reserved ≤ p.qty_available
      → Conserves s (record s {
        products =
            put r.product_id
              (record p { qty_available = p.qty_available - r.qty_reserved })
              s.products;
        reservations = s.reservations ++ (id, r) ∷ [];
      })
  take_stock-Conserves found on fits = record {
    stays = λ j h. ground (
      arith,
      get-put j r.product_id (record p { qty_available = p.qty_available - r.qty_reserved }) p
          s.products,
    );
    same = λ j h. ground (
      arith,
      sum-append (held j) id r s.reservations,
      get-put j r.product_id (record p { qty_available = p.qty_available - r.qty_reserved }) p
          s.products,
    );
  }

-- Writing a reservation anew with the same units held.
module _ (id : ℕ) (r r' : Reservation) (s : Session) where
  pub keep_stock-Conserves :
      get id s.reservations ≡ some r
      → r'.product_id ≡ r.product_id
      → r'.qty_reserved ≡ r.qty_reserved
      → holds r'.status ≡ holds r.status
      → Conserves s (record s { reservations = put id r' s.reservations })
  keep_stock-Conserves found product units status = record {
    stays = λ j h. h;
    same = λ j h. ground (arith, sum-put (held j) id r' r s.reservations);
  }

-- Giving the units of a reservation back.
module _ (id : ℕ) (r : Reservation) (status : OrderStatus) (s : Session) where
  pub close-Conserves :
      get id s.reservations ≡ some r
      → holds r.status ≡ true
      → holds status ≡ false
      → Conserves s (record s {
        products = restocked r s.products;
        reservations = put id (record r { status = status }) s.reservations;
      })
  close-Conserves found on off = elim (Option-cases (get r.product_id s.products)) [
    | inl missing ↦ record {
      stays = λ j h. ground arith;
      same = λ j h.
          ground (arith, sum-put (held j) id (record r { status = status }) r s.reservations);
    }
    | inr (p, known) ↦
        let p' : Product = record p { qty_available = p.qty_available + r.qty_reserved } in
        record {
          stays = λ j h. ground (arith, get-put j r.product_id p' p s.products);
          same = λ j h. ground (
            arith,
            get-put j r.product_id p' p s.products,
            sum-put (held j) id (record r { status = status }) r s.reservations,
          );
        }
  ]
