-- ===== src/Routes/Partners.antt =====
-- The API for partners, app/services/external: its service, its schemas and its routes. The
-- order of names is the database's, a parameter.
pub mod Catalogue
use fair_drop.Common.{
  ℕ, Bool, true, false, ◌&&◌, ◌==◌, String, Option, none, some, List, [], ◌∷◌, if◌then◌else◌,
}
use fair_drop.Common.Table.{Table, select}
use fair_drop.Exceptions.{Result, ok, err, no_such_resource, ◌>>=◌, or_raise, scalar_one_or_none}
use fair_drop.Models.{User, Product, active, Order, order_status_name}
use fair_drop.Database.{Session}
use fair_drop.Users.Hashing.{Hashing}
use fair_drop.Users.Access.{get_api_key_user}
use fair_drop.Inventory.Service.{product_status_eq}

pub record ExternalProductRead : Type 0 where
  pub id : ℕ
  pub name : String
  pub price : ℕ
  pub qty_available : ℕ

abbrev pub external_product : ℕ → Product → ExternalProductRead
external_product id p = record {
  id = id;
  name = p.name;
  price = p.price;
  qty_available = p.qty_available;
}

-- `updated_at` is left out.
pub record ExternalOrderResponse : Type 0 where
  pub id : ℕ
  pub status : String

-- `Product.status == ProductStatus.ACTIVE`
abbrev pub is_listed : Product → Bool
is_listed p = product_status_eq p.status active

-- `order_by(Product.name)` is the database's, the first argument.
pub get_external_catalog : (Table Product → Table Product) → Session → Table Product
get_external_catalog order_by_name s = order_by_name (select is_listed s.products)

unfoldable pub external_products : Table Product → List ExternalProductRead
external_products [] = []
external_products ((id, p) ∷ rows) = external_product id p ∷ external_products rows

-- The rows with a key and an owner: one, or none.
pub order_rows : ℕ → ℕ → Table Order → Table Order
order_rows user_id order_id [] = []
order_rows user_id order_id ((id, o) ∷ rows) =
    let rest = order_rows user_id order_id rows in
    if id == order_id && (o.user_id == user_id) then (id, o) ∷ rest else rest

pub get_external_order_status : ℕ → ℕ → Session → Result (Option (ℕ × Order))
get_external_order_status user_id order_id s =
    scalar_one_or_none (order_rows user_id order_id s.orders)

module _ (h : Hashing) (now : ℕ) (api_key : Option String) where
  -- The answer, and the session, in which the key's use is committed.
  unfoldable pub fetch_catalog :
      (Table Product → Table Product) → Session → Result (List ExternalProductRead) × Session
  fetch_catalog order_by_name s =
      let (current_partner, s') = get_api_key_user h now api_key s in
      (
        (do
          partner ← current_partner
          ok (external_products (get_external_catalog order_by_name s'))),
        s',
      )

  pub fetch_order_status : ℕ → Session → Result ExternalOrderResponse × Session
  fetch_order_status order_id s =
      let (current_partner, s') = get_api_key_user h now api_key s in
      (
        (do
          partner ← current_partner
          found ← get_external_order_status partner.id order_id s'
          row ← or_raise found no_such_resource
          ok (record { id = row.0; status = order_status_name row.1.status })),
        s',
      )
