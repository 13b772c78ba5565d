-- ===== src/Examples/Catalogue.antt =====
-- The catalogue of the sample shop: moderation, access and the audit trail.
use fair_drop.Common.{◌≡◌, refl, false, some, none, [], ◌∷◌, All}
use fair_drop.Common.Table.{get, select}
use fair_drop.Exceptions.{Result, ok, err}
use fair_drop.Models.{Product, rejected, seller, seller_b2b}
use fair_drop.Database.{Session, update_product_row, check_product, delete_product_row}
use fair_drop.Security.{check_ownership, RoleChecker}
use fair_drop.AuditLog.Masking.{IsMaskedEntry, log_object_change-IsMasked}
use fair_drop.Json.{json_eq, str}
use fair_drop.AuditLog.{log_object_change, dict_get}
use fair_drop.Inventory.Schemas.{product_read}
use fair_drop.Orders.Service.{order_response}
use fair_drop.Inventory.Service.{delete_product, get_product_row, save_product, log_product_change}
use fair_drop.Inventory.Admin.{reject_product}
use fair_drop.Inventory.Moderation.{Request, reject, handle}
use fair_drop.Inventory.Moderation.Audited.{delete_product-silent}
use fair_drop.Inventory.Moderation.Workflow.{IsMove, handle-IsMove}
use fair_drop.Examples.Sample.{shop, reviewer, chair, placed_order}

abbrev rejection : Request
rejection = reject 11 reviewer "blurred photo"

abbrev rejected_chair : Product
rejected_chair = record chair { status = rejected; moderator_id = none }

abbrev session_of : Session → Result (Product × Session) → Session
session_of s (ok (p, s')) = s'
session_of s (err e) = s

chair_rejected :
    handle rejection shop ≡ ok (rejected_chair, session_of shop (handle rejection shop))
unfolding handle reject_product get_product_row get save_product update_product_row check_product
chair_rejected = refl

handle-IsMove_example :
    IsMove rejection shop (session_of shop (handle rejection shop)) rejected_chair
handle-IsMove_example = handle-IsMove rejection shop _ rejected_chair chair_rejected

abbrev shop_without_chair : Session
shop_without_chair = after (delete_product 11 reviewer shop)
  where
    after : Result Session → Session
    after (ok s) = s
    after (err e) = shop

chair_deleted : delete_product 11 reviewer shop ≡ ok shop_without_chair
unfolding delete_product get_product_row get select delete_product_row log_product_change
    log_object_change product_read json_eq check_ownership dict_get
chair_deleted = refl

delete_product-silent_example : shop_without_chair.audit_logs ≡ shop.audit_logs
delete_product-silent_example =
    delete_product-silent 11 reviewer shop shop_without_chair chair_deleted

log_object_change-IsMasked_example :
    All IsMaskedEntry
      (log_object_change 1 30 "order" "create" none
        (some (order_response 30 placed_order []))
        (("source", str "api") ∷ [])
        shop).audit_logs
log_object_change-IsMasked_example =
    log_object_change-IsMasked 1 30 "order" "create" none (some (order_response 30 placed_order []))
      (("source", str "api") ∷ []) shop (refl, tt) tt

abbrev sellers : RoleChecker
sellers = record { allowed_roles = seller ∷ seller_b2b ∷ []; required_verified = false }
