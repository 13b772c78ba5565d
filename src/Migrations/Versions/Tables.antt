-- ===== src/Migrations/Versions/Tables.antt =====
-- The migrations that create the first tables, from the start to the images of products.
use fair_drop.Common.{true, false, none, some, [], ◌∷◌}
use fair_drop.Migrations.{
  uuid, text, boolean, integer, varchar, numeric, timestamp, enum, required, optional, stamped,
  primary_key, unique, foreign_key, check, create_type, create_table, drop_table, add_column,
  drop_column, alter_nullable, create_index, drop_index, create_foreign_key, drop_constraint,
  Migration,
}

abbrev pub initial_migration : Migration
initial_migration = record {
  revision = "df62df8b89ee";
  down_revision = none;
  upgrade =
      create_table "users"
        (required "id" uuid
          ∷ required "email" (varchar (some 255))
          ∷ required "password_hash" (varchar none)
          ∷ required "is_active" boolean
          ∷ required "is_superuser" boolean
          ∷ stamped "created_at" timestamp
          ∷ [])
        (primary_key "id" ∷ unique "email" ∷ [])
      ∷ [];
  downgrade = drop_table "users" ∷ [];
}

abbrev pub add_inventory_models : Migration
add_inventory_models = record {
  revision = "9de21de26e14";
  down_revision = some "df62df8b89ee";
  upgrade =
      create_table "products"
        (required "id" uuid
          ∷ required "name" (varchar none)
          ∷ optional "description" text
          ∷ optional "price" (numeric 10 2)
          ∷ required "qty_available" integer
          ∷ stamped "created_at" timestamp
          ∷ stamped "updated_at" timestamp
          ∷ [])
        (check "check_price_non_negative" "price >= 0.10"
          ∷ check "check_qty_non_negative" "qty_available >= 0"
          ∷ primary_key "id"
          ∷ [])
      ∷ create_table "reservations"
          (required "id" uuid
            ∷ required "qty_reserved" integer
            ∷ required "user_id" uuid
            ∷ required "product_id" uuid
            ∷ required "status" (varchar none)
            ∷ required "idempotency_key" (varchar none)
            ∷ required "expires_at" timestamp
            ∷ stamped "created_at" timestamp
            ∷ [])
          (foreign_key "product_id" "products" "id" false
            ∷ foreign_key "user_id" "users" "id" false
            ∷ primary_key "id"
            ∷ unique "idempotency_key"
            ∷ [])
      ∷ [];
  downgrade = drop_table "reservations" ∷ drop_table "products" ∷ [];
}

abbrev pub add_order_models : Migration
add_order_models = record {
  revision = "7a9950347298";
  down_revision = some "9de21de26e14";
  upgrade =
      create_type "orderstatus" ("PENDING" ∷ "PAID" ∷ "SHIPPED" ∷ "CANCELLED" ∷ "FAILED" ∷ [])
      ∷ create_table "orders"
          (required "id" uuid
            ∷ required "user_id" uuid
            ∷ required "status" (enum "orderstatus")
            ∷ required "total_amount" (numeric 10 2)
            ∷ stamped "created_at" timestamp
            ∷ stamped "updated_at" timestamp
            ∷ [])
          (check "check_total_amount_non_negative" "total_amount >= 0"
            ∷ foreign_key "user_id" "users" "id" false
            ∷ primary_key "id"
            ∷ [])
      ∷ create_table "order_items"
          (required "id" uuid
            ∷ required "order_id" uuid
            ∷ required "product_id" uuid
            ∷ required "quantity" integer
            ∷ required "price" (numeric 10 2)
            ∷ stamped "created_at" timestamp
            ∷ stamped "updated_at" timestamp
            ∷ [])
          (foreign_key "order_id" "orders" "id" false
            ∷ foreign_key "product_id" "products" "id" false
            ∷ primary_key "id"
            ∷ [])
      ∷ [];
  downgrade = drop_table "order_items" ∷ drop_table "orders" ∷ [];
}

abbrev pub refine_models_relationship : Migration
refine_models_relationship = record {
  revision = "074ccbf948b4";
  down_revision = some "7a9950347298";
  upgrade =
      add_column "order_items" (required "product_name" (varchar none))
      ∷ add_column "orders" (optional "shipping_address" text)
      ∷ add_column "reservations" (optional "order_id" uuid)
      ∷ create_foreign_key "fk_reservations_order_id" "reservations" "orders" "order_id" "id"
      ∷ [];
  downgrade =
      drop_constraint "fk_reservations_order_id" "reservations"
      ∷ drop_column "reservations" "order_id"
      ∷ drop_column "orders" "shipping_address"
      ∷ drop_column "order_items" "product_name"
      ∷ [];
}

abbrev pub add_refresh_tokens : Migration
add_refresh_tokens = record {
  revision = "71e5495a30cd";
  down_revision = some "074ccbf948b4";
  upgrade =
      create_table "refresh_tokens"
        (required "id" uuid
          ∷ required "user_id" uuid
          ∷ required "token" (varchar none)
          ∷ required "expires_at" timestamp
          ∷ stamped "created_at" timestamp
          ∷ [])
        (foreign_key "user_id" "users" "id" true ∷ primary_key "id" ∷ [])
      ∷ create_index "ix_refresh_tokens_token" "refresh_tokens" "token" true
      ∷ [];
  downgrade =
      drop_index "ix_refresh_tokens_token" "refresh_tokens" ∷ drop_table "refresh_tokens" ∷ [];
}

abbrev pub make_price_non_nullable : Migration
make_price_non_nullable = record {
  revision = "61a11ad734d2";
  down_revision = some "71e5495a30cd";
  upgrade = alter_nullable "products" "price" false ∷ [];
  downgrade = alter_nullable "products" "price" true ∷ [];
}

abbrev pub add_product_image_model : Migration
add_product_image_model = record {
  revision = "9ae77f428203";
  down_revision = some "8ca7fefa94b6";
  upgrade =
      create_table "product_images"
        (required "id" uuid
          ∷ required "product_id" uuid
          ∷ required "file_path" (varchar none)
          ∷ required "status" (varchar none)
          ∷ stamped "created_at" timestamp
          ∷ stamped "updated_at" timestamp
          ∷ [])
        (foreign_key "product_id" "products" "id" false ∷ primary_key "id" ∷ [])
      ∷ [];
  downgrade = drop_table "product_images" ∷ [];
}
