-- ===== src/Inventory/Moderation/Audited.antt =====
-- What the audit trail shows of a change to a product.
use fair_drop.Common.{
  ℕ, ◌≡◌, ◌≢◌, refl, inl, inr, true, false, String, some, [], ◌∷◌, arith, Bool-cases, All, str_eq,
}
use fair_drop.Common.Table.{put}
use fair_drop.Exceptions.{ok, Result-cases}
use fair_drop.Json.{Dict, json_eq, json_eq_refl}
use fair_drop.Models.{
  User, Product, ProductStatus, draft, active, archived, pending_moderation, moderation_in_progress,
  rejected, product_status_name,
}
use fair_drop.Database.{Session, is_empty, delete_product_row, update_product_row, check_product}
use fair_drop.AuditLog.{get_diff, changed_diff, dict_get, log_object_change}
use fair_drop.AuditLog.Changes.{IsLogged, log_object_change-writes, log_object_change-silent}
use fair_drop.Inventory.Schemas.{product_read}
use fair_drop.Inventory.Service.{log_product_change, delete_product, get_product_row, save_product}

-- A diff is empty only if every field of the new snapshot has its old value.
unchanged :
    (old d : Dict)
    → is_empty (changed_diff old d) ≡ true
    → All (λ kv. json_eq kv.1 (dict_get kv.0 old) ≡ true) d
unfolding changed_diff
unchanged old [] h = tt
unchanged old ((k, v) ∷ d) h = elim (Bool-cases (json_eq v (dict_get k old))) [
  | inl same ↦ (same, unchanged old d (ground arith))
  | inr differs ↦ absurd (ground arith)
]

-- Snapshots with different statuses differ.
status_in_changed :
    (id : ℕ) (old new : Product)
    → str_eq (product_status_name new.status) (product_status_name old.status) ≡ false
    → is_empty (changed_diff (product_read id old) (product_read id new)) ≡ false
unfolding product_read json_eq dict_get
status_in_changed id old new h =
    elim (Bool-cases (is_empty (changed_diff (product_read id old) (product_read id new)))) [
      | inr some' ↦ some'
      | inl same ↦
          let fields = unchanged (product_read id old) (product_read id new) same in
          let e : str_eq (product_status_name new.status) (product_status_name old.status) ≡ true =
            fields.1.1.1.1.1.0 in
          cc
    ]

status_in_diff :
    (id : ℕ) (old new : Product)
    → str_eq (product_status_name new.status) (product_status_name old.status) ≡ false
    → is_empty (get_diff (some (product_read id old)) (some (product_read id new))) ≡ false
unfolding get_diff
status_in_diff id old new h = status_in_changed id old new h

name_injective :
    (a b : ProductStatus) → str_eq (product_status_name a) (product_status_name b) ≡ true → a ≡ b
name_injective draft draft h = refl
name_injective active active h = refl
name_injective archived archived h = refl
name_injective pending_moderation pending_moderation h = refl
name_injective moderation_in_progress moderation_in_progress h = refl
name_injective rejected rejected h = refl
name_injective _ _ h = cc

names_differ :
    (a b : ProductStatus) → a ≢ b → str_eq (product_status_name a) (product_status_name b) ≡ false
names_differ a b h = elim (Bool-cases (str_eq (product_status_name a) (product_status_name b))) [
  | inl same ↦ absurd (h (name_injective a b same))
  | inr differs ↦ differs
]

-- A saved product with another status leaves one entry.
pub save_product-IsLogged :
    (u : User) (id : ℕ) (old p q : Product) (action : String) (metadata : Dict) (s s' : Session)
    → p.status ≢ old.status
    → save_product u id old p action metadata s ≡ ok (q, s')
    → IsLogged u.id id "product" action s s'
unfolding save_product log_product_change update_product_row check_product
save_product-IsLogged u id old p q action metadata s s' differs h =
    let t : Session = record s { products = put id p s.products } in
    let e : s'
        ≡ log_object_change u.id id "product" action (some (product_read id old))
            (some (product_read id p)) metadata t =
      ground arith in
    let logged =
      log_object_change-writes u.id id "product" action (some (product_read id old))
        (some (product_read id p)) metadata t
        (status_in_diff id old p (names_differ p.status old.status differs)) in
    record {
      entry = logged.entry;
      about = logged.about;
      written = rw e logged.written;
      from_request = logged.from_request;
    }

-- Two snapshots of one product have no diff.
same_diff :
    (id : ℕ) (p : Product) → get_diff (some (product_read id p)) (some (product_read id p)) ≡ []
unfolding get_diff changed_diff product_read dict_get
same_diff id p = simp json_eq_refl

-- Deleting a product leaves no trace in the audit trail: the entry is made from two snapshots of
-- the same row, which do not differ.
pub delete_product-silent :
    (id : ℕ) (u : User) (s s' : Session)
    → delete_product id u s ≡ ok s'
    → s'.audit_logs ≡ s.audit_logs
unfolding delete_product log_product_change delete_product_row
delete_product-silent id u s s' h = elim (Result-cases (get_product_row id (some u) s)) [
  | inr (e, failed) ↦ absurd (ground arith)
  | inl (p, got) ↦
      let quiet =
        log_object_change-silent u.id id "product" "delete" (some (product_read id p))
          (some (product_read id p)) [] s (rw same_diff refl) in
      ground (arith, quiet)
]
