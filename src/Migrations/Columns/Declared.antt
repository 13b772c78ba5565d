-- ===== src/Migrations/Columns/Declared.antt =====
-- The columns of app/services/*/models.py and app/core/audit_log/models.py.
use fair_drop.Common.{none, some, [], ◌∷◌, ◌++◌, map, List, String}
use fair_drop.Migrations.{
  uuid, text, boolean, integer, json, varchar, numeric, timestamp, timestamp_tz, enum, required,
  optional, stamped, Column, Columns,
}

abbrev pub user : List Column
user =
    required "id" uuid
    ∷ required "email" (varchar (some 255))
    ∷ required "password_hash" (varchar none)
    ∷ required "is_active" boolean
    ∷ required "is_verified" boolean
    ∷ required "role" (enum "userrole")
    ∷ stamped "created_at" timestamp
    ∷ []

abbrev pub refresh_token : List Column
refresh_token =
    required "id" uuid
    ∷ required "user_id" uuid
    ∷ required "token" (varchar none)
    ∷ required "expires_at" timestamp
    ∷ stamped "created_at" timestamp
    ∷ []

abbrev pub api_key_b2b_partner : List Column
api_key_b2b_partner =
    required "id" uuid
    ∷ required "user_id" uuid
    ∷ required "name" (varchar (some 100))
    ∷ required "key_prefix" (varchar (some 12))
    ∷ required "hashed_key" (varchar none)
    ∷ required "is_active" boolean
    ∷ stamped "created_at" timestamp
    ∷ optional "expires_at" timestamp
    ∷ optional "last_used_at" timestamp
    ∷ []

abbrev pub verification_request : List Column
verification_request =
    required "id" uuid
    ∷ required "user_id" uuid
    ∷ required "target_role" (enum "userrole")
    ∷ required "status" (enum "verificationstatus")
    ∷ optional "docs_url" json
    ∷ optional "admin_feedback" (varchar none)
    ∷ stamped "created_at" timestamp
    ∷ stamped "updated_at" timestamp
    ∷ []

abbrev pub product : List Column
product =
    required "id" uuid
    ∷ required "owner_id" uuid
    ∷ required "name" (varchar none)
    ∷ optional "description" text
    ∷ required "price" (numeric 10 2)
    ∷ required "qty_available" integer
    ∷ stamped "created_at" timestamp_tz
    ∷ stamped "updated_at" timestamp_tz
    ∷ required "status" (enum "productstatus")
    ∷ optional "moderator_id" uuid
    ∷ optional "moderation_comment" text
    ∷ []

abbrev pub reservation : List Column
reservation =
    required "id" uuid
    ∷ required "qty_reserved" integer
    ∷ required "user_id" uuid
    ∷ required "product_id" uuid
    ∷ required "status" (varchar none)
    ∷ required "idempotency_key" (varchar none)
    ∷ optional "order_id" uuid
    ∷ required "expires_at" timestamp_tz
    ∷ stamped "created_at" timestamp_tz
    ∷ []

abbrev pub product_image : List Column
product_image =
    required "id" uuid
    ∷ required "product_id" uuid
    ∷ required "file_path" (varchar none)
    ∷ required "status" (varchar none)
    ∷ stamped "created_at" timestamp
    ∷ stamped "updated_at" timestamp
    ∷ []

abbrev pub order : List Column
order =
    required "id" uuid
    ∷ required "user_id" uuid
    ∷ required "status" (enum "orderstatus")
    ∷ required "total_amount" (numeric 10 2)
    ∷ optional "shipping_address" text
    ∷ stamped "created_at" timestamp
    ∷ stamped "updated_at" timestamp
    ∷ []

abbrev pub order_item : List Column
order_item =
    required "id" uuid
    ∷ required "order_id" uuid
    ∷ required "product_id" uuid
    ∷ required "product_name" (varchar none)
    ∷ required "quantity" integer
    ∷ required "price" (numeric 10 2)
    ∷ stamped "created_at" timestamp
    ∷ stamped "updated_at" timestamp
    ∷ []

abbrev pub audit_log : List Column
audit_log =
    required "id" uuid
    ∷ required "target_type" (varchar none)
    ∷ required "target_id" uuid
    ∷ required "actor_id" uuid
    ∷ required "action" (varchar none)
    ∷ required "changes" json
    ∷ stamped "created_at" timestamp_tz
    ∷ optional "remote_ip" (varchar (some 45))
    ∷ optional "request_id" (varchar none)
    ∷ []

abbrev of_table : String → List Column → Columns
of_table t cs = map (λ c. (t, c)) cs

-- `Base.metadata`, by `__tablename__`.
abbrev pub metadata : Columns
metadata =
    of_table "users" user
    ++ of_table "refresh_tokens" refresh_token
    ++ of_table "api_keys_b2b_partners" api_key_b2b_partner
    ++ of_table "verification_requests" verification_request
    ++ of_table "products" product
    ++ of_table "reservations" reservation
    ++ of_table "product_images" product_image
    ++ of_table "orders" order
    ++ of_table "order_items" order_item
    ++ of_table "audit_logs" audit_log

-- The enums of the models, each value by its name.
abbrev pub user_role_values : List String
user_role_values = "ADMIN" ∷ "MODERATOR" ∷ "USER" ∷ "USER_B2B" ∷ "SELLER" ∷ "SELLER_B2B" ∷ []

abbrev pub verification_status_values : List String
verification_status_values = "PENDING" ∷ "APPROVED" ∷ "REJECTED" ∷ []

abbrev pub product_status_values : List String
product_status_values =
    "DRAFT" ∷ "ACTIVE" ∷ "ARCHIVED" ∷ "PENDING_MODERATION" ∷ "MODERATION_IN_PROGRESS" ∷ "REJECTED"
    ∷ []

abbrev pub order_status_values : List String
order_status_values =
    "PENDING" ∷ "PAID" ∷ "SHIPPED" ∷ "CANCELLED" ∷ "FAILED" ∷ "COMPLETED" ∷ "EXPIRED" ∷ []

-- The values of the enum types that the models declare.
abbrev pub metadata_types : List (String × List String)
metadata_types =
    ("userrole", user_role_values)
    ∷ ("verificationstatus", verification_status_values)
    ∷ ("productstatus", product_status_values)
    ∷ ("orderstatus", order_status_values)
    ∷ []
