-- ===== src/Database.antt =====
-- A database session: the tables, and the writes that the constraints of the models guard.
use fair_drop.Common.{
  ℕ, Bool, true, false, not, ◌||◌, String, Option, none, some, List, [], ◌∷◌, ◌++◌, ltb, leb, ◌==◌,
  str_eq,
}
use fair_drop.Common.Table.{Table, get, put, select, delete}
use fair_drop.Exceptions.{Result, ok, integrity_error, data_error, ◌>>◌, raise_if}
use fair_drop.Models.{
  User, Product, Reservation, Order, OrderItem, ProductImage, RefreshToken, ApiKey,
  VerificationRequest, AuditLog,
}

-- The context variables of structlog, which the request middleware sets.
pub record Context : Type 0 where
  pub request_id : Option String
  pub remote_ip : Option String

pub record Session : Type 0 where
  pub users : Table User
  pub products : Table Product
  pub reservations : Table Reservation
  pub orders : Table Order
  pub order_items : Table OrderItem
  pub images : Table ProductImage
  pub refresh_tokens : Table RefreshToken
  pub api_keys : Table ApiKey
  pub verification_requests : Table VerificationRequest
  pub audit_logs : List AuditLog
  pub context : Context

abbrev pub is_some {ℓ} : {A : Type ℓ} → Option A → Bool
is_some none = false
is_some (some _) = true

abbrev pub is_empty {ℓ} : {A : Type ℓ} → List A → Bool
is_empty [] = true
is_empty (_ ∷ _) = false

-- The largest value of an Integer column.
abbrev pub integer_max : ℕ
integer_max = 2147483647

-- A Numeric(10, 2) column holds less than this many cents.
abbrev pub numeric_limit : ℕ
numeric_limit = 10000000000

-- check_price_non_negative: the price is at least 0.10.
abbrev pub price_min : ℕ
price_min = 10

-- The columns' ranges and the CHECK constraints of `products`; `qty_available >= 0` holds of any
-- natural number.
unfoldable pub check_product : Product → Result (Unit {0})
check_product p = do
  raise_if (leb numeric_limit p.price) data_error
  raise_if (ltb integer_max p.qty_available) data_error
  raise_if (ltb p.price price_min) integrity_error

-- INSERT INTO products
unfoldable pub insert_product : ℕ → Product → Session → Result Session
unfolding check_product
insert_product id p s = do
  check_product p
  raise_if (is_some (get id s.products) || not (is_some (get p.owner_id s.users))) integrity_error
  ok (record s { products = s.products ++ (id, p) ∷ [] })

-- UPDATE products
unfoldable pub update_product_row : ℕ → Product → Session → Result Session
unfolding check_product
update_product_row id p s = do check_product p; ok (record s { products = put id p s.products })

-- INSERT INTO reservations: the key and `idempotency_key` are unique, and the user and the product
-- exist.
unfoldable pub insert_reservation : ℕ → Reservation → Session → Result Session
insert_reservation id r s = do
  raise_if (ltb integer_max r.qty_reserved) data_error
  raise_if
      (is_some (get id s.reservations)
        || not (is_empty (select (λ q. str_eq q.idempotency_key r.idempotency_key) s.reservations))
        || not (is_some (get r.user_id s.users))
        || not (is_some (get r.product_id s.products)))
      integrity_error
  ok (record s { reservations = s.reservations ++ (id, r) ∷ [] })

-- UPDATE reservations
abbrev pub update_reservation_row : ℕ → Reservation → Session → Session
update_reservation_row id r s = record s { reservations = put id r s.reservations }

-- INSERT INTO orders
unfoldable pub insert_order : ℕ → Order → Session → Result Session
insert_order id o s = do
  raise_if (leb numeric_limit o.total_amount) data_error
  raise_if (is_some (get id s.orders) || not (is_some (get o.user_id s.users))) integrity_error
  ok (record s { orders = s.orders ++ (id, o) ∷ [] })

-- UPDATE orders
abbrev pub update_order_row : ℕ → Order → Session → Session
update_order_row id o s = record s { orders = put id o s.orders }

-- INSERT INTO order_items
unfoldable pub insert_order_item : ℕ → OrderItem → Session → Result Session
insert_order_item id i s = do
  raise_if (leb numeric_limit i.price || ltb integer_max i.quantity) data_error
  raise_if
      (is_some (get id s.order_items)
        || not (is_some (get i.order_id s.orders))
        || not (is_some (get i.product_id s.products)))
      integrity_error
  ok (record s { order_items = s.order_items ++ (id, i) ∷ [] })

-- DELETE FROM products, with its images (`cascade='all, delete-orphan'`). A reservation or an order
-- item that refers to the product refuses it.
unfoldable pub delete_product_row : ℕ → Session → Result Session
delete_product_row id s = do
  raise_if
      (not (is_empty (select (λ r. r.product_id == id) s.reservations))
        || not (is_empty (select (λ i. i.product_id == id) s.order_items)))
      integrity_error
  ok (record s {
    products = delete id s.products;
    images = select (λ m. not (m.product_id == id)) s.images;
  })
