-- ===== src/Routes/Inventory.antt =====
-- The routes of app/services/inventory/routes.py. The text of a UUID and the presigning of an
-- address are parameters; what the code draws, the time and the new key, are arguments. The routes that
-- change a product answer with its row, of which the schema shows `product_read`.
use Prim.Native.String
use fair_drop.Common.{
  ℤ, ℕ, Bool, true, false, ◌==◌, String, Option, none, some, List, [], ◌∷◌, str_eq, if◌then◌else◌,
}
use fair_drop.Common.Table.{Table, select}
use fair_drop.Exceptions.{Result, ok, err, ◌>>=◌}
use fair_drop.Config.{Settings}
use fair_drop.Json.{Json, str, arr, Items, nil, cons, Dict}
use fair_drop.Models.{
  User, admin, moderator, seller, seller_b2b, Product, active, Reservation, ProductImage,
  ImageStatus,
}
use fair_drop.Database.{Session}
use fair_drop.Security.{RoleChecker}
use fair_drop.Users.Access.{Jwt, get_current_user}
use fair_drop.Media.Paths.{generate_presigned_get_url}
use fair_drop.RateLimit.{Counters, Buckets, check_rate_limit}
use fair_drop.Idempotency.{Cache, HttpRequest, Reply, Codec, idempotent}
use fair_drop.Inventory.Schemas.{ProductCreate, ProductUpdate, ReservationCreate, product_read}
use fair_drop.Inventory.Service.{
  create_product, update_product, delete_product, get_product, get_products, submit_for_moderation,
}
use fair_drop.Inventory.Admin.{change_status, approve_product, reject_product, claim_for_moderation}
use fair_drop.Inventory.Reserve.{reserve_items}
use fair_drop.Routes.{checked_user}

abbrev pub seller_dependency : RoleChecker
seller_dependency = record { allowed_roles = seller ∷ seller_b2b ∷ []; required_verified = false }

abbrev pub admin_dependency : RoleChecker
admin_dependency = record { allowed_roles = admin ∷ moderator ∷ []; required_verified = false }

abbrev pub admin_and_seller_dependency : RoleChecker
admin_and_seller_dependency = record {
  allowed_roles = admin ∷ moderator ∷ seller ∷ seller_b2b ∷ [];
  required_verified = false;
}

-- `img.status == 'active'`
abbrev pub is_shown_image : ImageStatus → Bool
is_shown_image ImageStatus.active = true
is_shown_image _ = false

-- `read_obj.image_urls = image_urls`
unfoldable pub with_field : String → Json → Dict → Dict
with_field name v [] = []
with_field name v ((k, old) ∷ d) =
    if str_eq k name then (k, v) ∷ d else (k, old) ∷ with_field name v d

module _ (presign : String → String → ℕ → String) (settings : Settings) where
  abbrev pub url_then : Option String → Option Items → Option Items
  url_then none urls = none
  url_then (some url) none = none
  url_then (some url) (some urls) = some (cons (str url) urls)

  -- The loop over `product.images`; `none` is an address whose making has not ended.
  unfoldable pub image_urls : Table ProductImage → Option Items
  image_urls [] = some nil
  image_urls ((id, image) ∷ images) =
      let rest = image_urls images in
      if is_shown_image image.status
      then url_then (generate_presigned_get_url presign settings image.file_path 3600) rest
      else rest

  abbrev pub with_urls : ℕ → Product → Option Items → Option Dict
  with_urls id p none = none
  with_urls id p (some urls) = some (with_field "image_urls" (arr urls) (product_read id p))

  unfoldable pub enrich_product_images : ℕ → Product → Session → Option Dict
  enrich_product_images id p s =
      with_urls id p (image_urls (select (λ image. image.product_id == id) s.images))

  abbrev pub page_then : Option Dict → Option (List Dict) → Option (List Dict)
  page_then none page = none
  page_then (some view) none = none
  page_then (some view) (some page) = some (view ∷ page)

  unfoldable pub enrich_each : Table Product → Session → Option (List Dict)
  enrich_each [] s = some []
  enrich_each ((id, p) ∷ rows) s = page_then (enrich_product_images id p s) (enrich_each rows s)

  unfoldable pub get_active_products : ℤ → ℤ → Session → Result (Option (List Dict))
  get_active_products skip limit s = do
    products ← get_products (some active) skip limit s
    ok (enrich_each products s)

  unfoldable pub get_product_route : ℕ → Session → Result (Option Dict)
  get_product_route product_id s = do
    product ← get_product product_id s
    ok (enrich_product_images product_id product s)

module _ (jwt : Jwt) (settings : Settings) (now : ℕ) (token : String) where
  unfoldable pub create_product_route : ℕ → ProductCreate → Session → Result (Product × Session)
  create_product_route id product_data s = do
    current_user ← checked_user jwt settings seller_dependency now token s
    create_product settings now id current_user.id product_data current_user s

  unfoldable pub activate_product : ℕ → Session → Result (Product × Session)
  activate_product product_id s = do
    current_user ← checked_user jwt settings admin_dependency now token s
    change_status product_id active current_user s

  unfoldable pub update_product_route : ℕ → ProductUpdate → Session → Result (Product × Session)
  update_product_route product_id product_data s = do
    current_user ← checked_user jwt settings admin_and_seller_dependency now token s
    update_product product_id product_data current_user s

  unfoldable pub delete_product_route : ℕ → Session → Result Session
  delete_product_route product_id s = do
    current_user ← checked_user jwt settings admin_dependency now token s
    delete_product product_id current_user s

  unfoldable pub submit_for_moderation_route : ℕ → Session → Result (Product × Session)
  submit_for_moderation_route product_id s = do
    current_user ← checked_user jwt settings seller_dependency now token s
    submit_for_moderation product_id current_user s

  unfoldable pub approve_product_route : ℕ → Session → Result (Product × Session)
  approve_product_route product_id s = do
    current_user ← checked_user jwt settings admin_dependency now token s
    approve_product product_id current_user s

  unfoldable pub reject_product_route : ℕ → String → Session → Result (Product × Session)
  reject_product_route product_id reason s = do
    current_user ← checked_user jwt settings admin_dependency now token s
    reject_product product_id current_user reason s

  unfoldable pub claim_for_moderation_route : ℕ → Session → Result (Product × Session)
  claim_for_moderation_route product_id s = do
    current_user ← checked_user jwt settings admin_dependency now token s
    claim_for_moderation product_id current_user s

-- The keys and limits of a reservation: of the user, and of the product.
abbrev pub reservation_buckets : (ℕ → String) → Settings → ℕ → ReservationCreate → Buckets
reservation_buckets uuid_text settings user_id d = record {
  user_key = String.◌++◌ "rate_limit:user:" (uuid_text user_id);
  user_limit = settings.rate_limit_user_rps;
  item =
      some
        (String.◌++◌ "rate_limit:item:" (uuid_text d.product_id), settings.rate_limit_global_rps);
}

-- What a reservation works on: the counters, which a raise does not undo, and the session.
module _ (redis : Counters) (uuid_text : ℕ → String) (settings : Settings) where
  abbrev pub reserved :
      redis.Store
      → Session
      → Result (Reservation × Session)
      → Result Reservation × (redis.Store × Session)
  reserved counters s (err e) = (err e, (counters, s))
  reserved counters s (ok (reservation, s')) = (ok reservation, (counters, s'))

  -- The function under the decorator.
  abbrev pub reserve :
      ℕ
      → ℕ
      → User
      → String
      → ReservationCreate
      → redis.Store × Session
      → Result Reservation × (redis.Store × Session)
  reserve now id current_user x_idempotency_key d (counters, s) =
      let (allowed, counters') =
        check_rate_limit redis now (reservation_buckets uuid_text settings current_user.id d)
          settings.rate_limit_ttl_seconds counters in
      elim allowed [
        | err e ↦ (err e, (counters', s))
        | ok _ ↦
            reserved counters' s
              (reserve_items settings now id current_user.id x_idempotency_key d s)
      ]

  module _ (cache : Cache) (codec : Codec Reservation) (jwt : Jwt) where
    -- The header, which FastAPI passes on, is the one that the decorator reads.
    unfoldable pub reservation_data :
        ℕ
        → ℕ
        → String
        → HttpRequest
        → String
        → ReservationCreate
        → cache.Store
        → redis.Store × Session
        → Result (Reply Reservation) × cache.Store × (redis.Store × Session)
    reservation_data now id token request x_idempotency_key d store (counters, s) =
        elim (get_current_user jwt settings now token s) [
          | err e ↦ (err e, store, (counters, s))
          | ok current_user ↦
              idempotent cache codec now settings.idempotent_key_lifetime_sec (some request)
                (reserve now id current_user x_idempotency_key d) store (counters, s)
        ]
