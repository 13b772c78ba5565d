-- ===== src/Stock.antt =====
-- The units of a product that the system accounts for: those on sale, and those that a pending or a
-- completed reservation holds.
pub mod Conservation
pub mod Storable
use fair_drop.Common.{
  ℕ, ◌+◌, ◌≡◌, ◌≤◌, ◌<◌, Bool, true, false, ◌&&◌, Option, none, some, ◌==◌, if◌then◌else◌,
}
use fair_drop.Common.Table.{get, sum}
use fair_drop.Models.{OrderStatus, Product, Reservation}
use fair_drop.Database.{Session, is_some, integer_max, price_min, numeric_limit}

-- The statuses in which the units of a reservation are out of the product's available quantity.
abbrev pub holds : OrderStatus → Bool
holds OrderStatus.pending = true
holds OrderStatus.completed = true
holds _ = false

abbrev pub held : ℕ → Reservation → ℕ
held product_id r = if r.product_id == product_id && holds r.status then r.qty_reserved else 0

abbrev pub quantity_of : Option Product → ℕ
quantity_of none = 0
quantity_of (some p) = p.qty_available

abbrev pub stock : ℕ → Session → ℕ
stock product_id s = quantity_of (get product_id s.products) + sum (held product_id) s.reservations

-- Every product stays, with the same units.
pub record Conserves (s s' : Session) : Type 0 where
  pub stays : (id : ℕ) → is_some (get id s.products) ≡ true → is_some (get id s'.products) ≡ true
  pub same : (id : ℕ) → is_some (get id s.products) ≡ true → stock id s' ≡ stock id s

-- Every product's price and all its units fit the columns.
pub record IsStorable (s : Session) : Type 0 where
  pub fits :
      (id : ℕ) (p : Product)
      → get id s.products ≡ some p
      → (stock id s ≤ integer_max) × (price_min ≤ p.price) × (p.price < numeric_limit)
