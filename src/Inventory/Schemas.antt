-- ===== src/Inventory/Schemas.antt =====
-- app/services/inventory/schemas.py, with the bounds that the fields declare.
use fair_drop.Common.{ℕ, Bool, String, Option, none, some, [], ◌∷◌, ltb}
use fair_drop.Json.{str, num, arr, nil, Dict}
use fair_drop.Models.{Product, product_status_name}
use fair_drop.AuditLog.{json_of_option}
use fair_drop.Exceptions.{Result, ok, err, validation_error, ◌>>=◌}

pub record ProductCreate : Type 0 where
  pub name : String
  pub description : Option String
  pub price : ℕ
  pub qty_available : ℕ

-- What pydantic demands: `price > 0`. `qty_available >= 0` holds of any natural number.
abbrev pub product_create_valid : ProductCreate → Bool
product_create_valid d = ltb 0 d.price

-- A field of a partial payload: left out, or set, to null perhaps.
abbrev pub Patch : Type 0 → Type 0
Patch A = Option (Option A)

pub record ProductUpdate : Type 0 where
  pub name : Patch String
  pub description : Patch String
  pub price : Patch ℕ
  pub qty_available : Patch ℕ

-- `setattr` of a field that must not be null: `ProductRead.model_validate` raises on a null.
abbrev pub patch_required : {A : Type 0} → Patch A → A → Result A
patch_required none old = ok old
patch_required (some none) old = err validation_error
patch_required (some (some v)) old = ok v

abbrev pub patch_optional : {A : Type 0} → Patch A → Option A → Option A
patch_optional none old = old
patch_optional (some v) old = v

-- The loop over `product_data.model_dump(exclude_unset=True)`.
unfoldable pub apply_update : ProductUpdate → Product → Result Product
apply_update d p = do
  name ← patch_required d.name p.name
  price ← patch_required d.price p.price
  qty_available ← patch_required d.qty_available p.qty_available
  ok (record p {
    name = name;
    description = patch_optional d.description p.description;
    price = price;
    qty_available = qty_available;
  })

pub record ReservationCreate : Type 0 where
  pub product_id : ℕ
  pub quantity : ℕ

-- What pydantic demands: `quantity > 0`.
abbrev pub reservation_create_valid : ReservationCreate → Bool
reservation_create_valid d = ltb 0 d.quantity

-- `ProductRead.model_validate(product).model_dump(mode='json')`; `image_urls` keeps its default.
unfoldable pub product_read : ℕ → Product → Dict
product_read id p =
    ("id", num id)
    ∷ ("name", str p.name)
    ∷ ("description", json_of_option p.description)
    ∷ ("price", num p.price)
    ∷ ("qty_available", num p.qty_available)
    ∷ ("status", str (product_status_name p.status))
    ∷ ("created_at", num p.created_at)
    ∷ ("image_urls", arr nil)
    ∷ []
