-- ===== src/Migrations/Versions/Roles.antt =====
-- The migrations of the roles, the owners, the audit log and the moderation, up to the head.
use fair_drop.Common.{true, false, none, some, [], ◌∷◌}
use fair_drop.Migrations.{
  uuid, text, boolean, json, varchar, timestamp, timestamp_tz, enum, required, optional, stamped,
  primary_key, foreign_key, create_type, create_type_if_missing, drop_type_if_exists, add_value,
  update, create_table, drop_table, add_column, drop_column, alter_nullable, create_index,
  drop_index, create_foreign_key, drop_constraint, Migration,
}

abbrev pub add_rbac_and_product_status : Migration
add_rbac_and_product_status = record {
  revision = "902cfb988689";
  down_revision = some "2a03cc82fdc7";
  upgrade =
      create_type_if_missing "userrole"
        ("ADMIN" ∷ "MODERATOR" ∷ "USER" ∷ "USER_B2B" ∷ "SELLER" ∷ "SELLER_B2B" ∷ [])
      ∷ create_type_if_missing "productstatus" ("DRAFT" ∷ "ACTIVE" ∷ "ARCHIVED" ∷ [])
      ∷ add_column "products" (optional "status" (enum "productstatus"))
      ∷ add_column "users" (optional "is_verified" boolean)
      ∷ add_column "users" (optional "role" (enum "userrole"))
      ∷ update "UPDATE products SET status = 'DRAFT'"
      ∷ update "UPDATE users SET is_verified = FALSE"
      ∷ update "UPDATE users SET role = 'USER'"
      ∷ alter_nullable "products" "status" false
      ∷ alter_nullable "users" "is_verified" false
      ∷ alter_nullable "users" "role" false
      ∷ drop_column "users" "is_superuser"
      ∷ [];
  downgrade =
      add_column "users" (required "is_superuser" boolean)
      ∷ drop_column "users" "role"
      ∷ drop_column "users" "is_verified"
      ∷ drop_column "products" "status"
      ∷ drop_type_if_exists "productstatus"
      ∷ drop_type_if_exists "userrole"
      ∷ [];
}

abbrev pub add_product_owner_id : Migration
add_product_owner_id = record {
  revision = "8e607d73b2b3";
  down_revision = some "902cfb988689";
  upgrade =
      add_column "products" (optional "owner_id" uuid)
      ∷ create_foreign_key "fk_products_owner" "products" "users" "owner_id" "id"
      ∷ update "UPDATE products SET owner_id = (SELECT id FROM users WHERE role = 'ADMIN' LIMIT 1)"
      ∷ update
          "UPDATE products SET owner_id = (SELECT id FROM users LIMIT 1) WHERE owner_id IS NULL"
      ∷ alter_nullable "products" "owner_id" false
      ∷ [];
  downgrade =
      drop_constraint "fk_products_owner" "products" ∷ drop_column "products" "owner_id" ∷ [];
}

abbrev pub add_audit_log_model : Migration
add_audit_log_model = record {
  revision = "dd775d4f45bb";
  down_revision = some "8e607d73b2b3";
  upgrade =
      create_table "audit_logs"
        (required "id" uuid
          ∷ required "target_type" (varchar none)
          ∷ required "target_id" uuid
          ∷ required "actor_id" uuid
          ∷ required "action" (varchar none)
          ∷ required "changes" json
          ∷ stamped "created_at" timestamp_tz
          ∷ optional "remote_ip" (varchar (some 45))
          ∷ optional "request_id" (varchar none)
          ∷ [])
        (foreign_key "actor_id" "users" "id" false ∷ primary_key "id" ∷ [])
      ∷ create_index "ix_audit_logs_action" "audit_logs" "action" false
      ∷ create_index "ix_audit_logs_actor_id" "audit_logs" "actor_id" false
      ∷ create_index "ix_audit_logs_created_at" "audit_logs" "created_at" false
      ∷ create_index "ix_audit_logs_remote_ip" "audit_logs" "remote_ip" false
      ∷ create_index "ix_audit_logs_request_id" "audit_logs" "request_id" false
      ∷ create_index "ix_audit_logs_target_id" "audit_logs" "target_id" false
      ∷ create_index "ix_audit_logs_target_type" "audit_logs" "target_type" false
      ∷ create_index "ix_products_owner_id" "products" "owner_id" false
      ∷ [];
  downgrade =
      drop_index "ix_products_owner_id" "products"
      ∷ drop_index "ix_audit_logs_target_type" "audit_logs"
      ∷ drop_index "ix_audit_logs_target_id" "audit_logs"
      ∷ drop_index "ix_audit_logs_request_id" "audit_logs"
      ∷ drop_index "ix_audit_logs_remote_ip" "audit_logs"
      ∷ drop_index "ix_audit_logs_created_at" "audit_logs"
      ∷ drop_index "ix_audit_logs_actor_id" "audit_logs"
      ∷ drop_index "ix_audit_logs_action" "audit_logs"
      ∷ drop_table "audit_logs"
      ∷ [];
}

abbrev pub add_moderation_statuses_and_moderator_id : Migration
add_moderation_statuses_and_moderator_id = record {
  revision = "df8560c163db";
  down_revision = some "dd775d4f45bb";
  upgrade =
      add_column "products" (optional "moderator_id" uuid)
      ∷ create_index "ix_products_moderator_id" "products" "moderator_id" false
      ∷ create_index "ix_products_owner_id" "products" "owner_id" false
      ∷ create_foreign_key "fk_products_moderator_id" "products" "users" "moderator_id" "id"
      ∷ add_value "productstatus" "PENDING_MODERATION"
      ∷ add_value "productstatus" "MODERATION_IN_PROGRESS"
      ∷ add_value "productstatus" "REJECTED"
      ∷ [];
  downgrade =
      drop_constraint "fk_products_moderator_id" "products"
      ∷ drop_index "ix_products_owner_id" "products"
      ∷ drop_index "ix_products_moderator_id" "products"
      ∷ drop_column "products" "moderator_id"
      ∷ [];
}

abbrev pub add_b2b_api_keys : Migration
add_b2b_api_keys = record {
  revision = "58fabaa5d620";
  down_revision = some "df8560c163db";
  upgrade =
      create_table "api_keys_b2b_partners"
        (required "id" uuid
          ∷ required "user_id" uuid
          ∷ required "name" (varchar (some 100))
          ∷ required "key_prefix" (varchar (some 12))
          ∷ required "hashed_key" (varchar none)
          ∷ required "is_active" boolean
          ∷ stamped "created_at" timestamp
          ∷ optional "expires_at" timestamp
          ∷ optional "last_used_at" timestamp
          ∷ [])
        (foreign_key "user_id" "users" "id" true ∷ primary_key "id" ∷ [])
      ∷ create_index "ix_api_keys_b2b_partners_key_prefix" "api_keys_b2b_partners" "key_prefix"
          false
      ∷ create_index "ix_api_keys_b2b_partners_user_id" "api_keys_b2b_partners" "user_id" false
      ∷ [];
  downgrade =
      drop_index "ix_api_keys_b2b_partners_user_id" "api_keys_b2b_partners"
      ∷ drop_index "ix_api_keys_b2b_partners_key_prefix" "api_keys_b2b_partners"
      ∷ drop_table "api_keys_b2b_partners"
      ∷ [];
}

abbrev pub add_verification_requests : Migration
add_verification_requests = record {
  revision = "96dda86ac1b0";
  down_revision = some "58fabaa5d620";
  upgrade =
      create_type "verificationstatus" ("PENDING" ∷ "APPROVED" ∷ "REJECTED" ∷ [])
      ∷ create_table "verification_requests"
          (required "id" uuid
            ∷ required "user_id" uuid
            ∷ required "target_role" (enum "userrole")
            ∷ required "status" (enum "verificationstatus")
            ∷ optional "docs_url" json
            ∷ optional "admin_feedback" (varchar none)
            ∷ stamped "created_at" timestamp
            ∷ stamped "updated_at" timestamp
            ∷ [])
          (foreign_key "user_id" "users" "id" true ∷ primary_key "id" ∷ [])
      ∷ create_index "ix_verification_requests_user_id" "verification_requests" "user_id" false
      ∷ [];
  downgrade =
      drop_index "ix_verification_requests_user_id" "verification_requests"
      ∷ drop_table "verification_requests"
      ∷ [];
}

abbrev pub add_product_moderation_comment : Migration
add_product_moderation_comment = record {
  revision = "93c6bb315592";
  down_revision = some "96dda86ac1b0";
  upgrade = add_column "products" (optional "moderation_comment" text) ∷ [];
  downgrade = drop_column "products" "moderation_comment" ∷ [];
}
