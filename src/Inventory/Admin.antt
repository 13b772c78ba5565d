-- ===== src/Inventory/Admin.antt =====
-- `InventoryAdminService` of app/services/inventory/service.py: the moderation of products.
use fair_drop.Common.{ℕ, Bool, true, false, not, String, none, some, [], ◌∷◌}
use fair_drop.Exceptions.{Result, conflict, ◌>>=◌, ◌>>◌, raise_if}
use fair_drop.Json.{str}
use fair_drop.Models.{
  User, Product, ProductStatus, active, pending_moderation, moderation_in_progress, rejected,
}
use fair_drop.Database.{Session}
use fair_drop.Inventory.Service.{get_product_row, save_product}

abbrev pub is_pending_moderation : ProductStatus → Bool
is_pending_moderation pending_moderation = true
is_pending_moderation _ = false

abbrev pub is_in_progress : ProductStatus → Bool
is_in_progress moderation_in_progress = true
is_in_progress _ = false

unfoldable pub change_status : ℕ → ProductStatus → User → Session → Result (Product × Session)
change_status product_id status current_user s = do
  product ← get_product_row product_id none s
  save_product current_user product_id product (record product { status = status }) "update" [] s

unfoldable pub claim_for_moderation : ℕ → User → Session → Result (Product × Session)
claim_for_moderation product_id moderator_user s = do
  product ← get_product_row product_id none s
  raise_if (not (is_pending_moderation product.status)) conflict
  save_product moderator_user product_id product
      (record product { status = moderation_in_progress; moderator_id = some moderator_user.id })
      "claim_for_moderation" [] s

unfoldable pub approve_product : ℕ → User → Session → Result (Product × Session)
approve_product product_id moderator_user s = do
  product ← get_product_row product_id none s
  raise_if (not (is_in_progress product.status)) conflict
  save_product moderator_user product_id product
      (record product { status = active; moderator_id = none }) "approve" [] s

unfoldable pub reject_product : ℕ → User → String → Session → Result (Product × Session)
reject_product product_id moderator_user reason s = do
  product ← get_product_row product_id none s
  raise_if (not (is_in_progress product.status)) conflict
  save_product moderator_user product_id product
      (record product { status = rejected; moderator_id = none }) "reject"
      (("reason", str reason) ∷ []) s
