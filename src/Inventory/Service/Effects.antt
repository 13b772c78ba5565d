-- ===== src/Inventory/Service/Effects.antt =====
-- What the writes of a product have done, where they succeed.
use fair_drop.Common.{ℕ, ◌≡◌, inl, inr, String, Option, some, arith, Option-cases}
use fair_drop.Common.Table.{get, put}
use fair_drop.Exceptions.{ok}
use fair_drop.Json.{Dict}
use fair_drop.Models.{User, Product}
use fair_drop.Database.{Session, update_product_row, check_product}
use fair_drop.AuditLog.Changes.{log_object_change-frame}
use fair_drop.Inventory.Schemas.{product_read}
use fair_drop.Inventory.Service.{get_product_row, check_owner_if, log_product_change, save_product}

pub log_product_change-frame :
    (u : User) (id : ℕ) (p : Product) (old : Option Dict) (action : String) (metadata : Dict)
    (s : Session)
    → let s' = log_product_change u id p old action metadata s in
      s' ≡ record s { audit_logs = s'.audit_logs }
unfolding log_product_change
log_product_change-frame u id p old action metadata s =
    log_object_change-frame u.id id "product" action old _ metadata s

pub get_product_row-ok :
    (id : ℕ) (u : Option User) (s : Session) (p : Product)
    → get_product_row id u s ≡ ok p
    → (get id s.products ≡ some p) × (check_owner_if u p ≡ ok tt)
unfolding get_product_row
get_product_row-ok id u s p h = elim (Option-cases (get id s.products)) [
  | inl missing ↦ absurd (ground arith)
  | inr (q, found) ↦ (ground arith, ground arith)
]

-- The row is written, the audit trail may grow, and nothing else changes.
pub save_product-ok :
    (u : User) (id : ℕ) (old p q : Product) (action : String) (metadata : Dict) (s s' : Session)
    → save_product u id old p action metadata s ≡ ok (q, s')
    → (q ≡ p) × (s' ≡ record s { products = put id p s.products; audit_logs = s'.audit_logs })
unfolding save_product update_product_row check_product
save_product-ok u id old p q action metadata s s' h =
    let t : Session = record s { products = put id p s.products } in
    let frame = log_product_change-frame u id p (some (product_read id old)) action metadata t in
    (ground arith, ground (arith, frame))
