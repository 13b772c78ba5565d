-- ===== src/Migrations/Versions/Indexes.antt =====
-- The migrations without directives, and those of the time zones and the indexes.
use fair_drop.Common.{false, some, [], ◌∷◌}
use fair_drop.Migrations.{timestamp, timestamp_tz, alter_type, create_index, drop_index, Migration}

abbrev pub add_order_status_param : Migration
add_order_status_param = record {
  revision = "e25c5de9bfe2";
  down_revision = some "61a11ad734d2";
  upgrade = [];
  downgrade = [];
}

abbrev pub first_placeholder : Migration
first_placeholder = record {
  revision = "6a1398dbe560";
  down_revision = some "e25c5de9bfe2";
  upgrade = [];
  downgrade = [];
}

abbrev pub second_placeholder : Migration
second_placeholder = record {
  revision = "8ca7fefa94b6";
  down_revision = some "6a1398dbe560";
  upgrade = [];
  downgrade = [];
}

abbrev pub make_datetime_timezone_aware : Migration
make_datetime_timezone_aware = record {
  revision = "2e443a9c1a0a";
  down_revision = some "9ae77f428203";
  upgrade =
      alter_type "products" "created_at" timestamp timestamp_tz
      ∷ alter_type "products" "updated_at" timestamp timestamp_tz
      ∷ alter_type "reservations" "expires_at" timestamp timestamp_tz
      ∷ alter_type "reservations" "created_at" timestamp timestamp_tz
      ∷ [];
  downgrade =
      alter_type "reservations" "created_at" timestamp_tz timestamp
      ∷ alter_type "reservations" "expires_at" timestamp_tz timestamp
      ∷ alter_type "products" "updated_at" timestamp_tz timestamp
      ∷ alter_type "products" "created_at" timestamp_tz timestamp
      ∷ [];
}

abbrev pub add_indexes_to_status_and_created_at : Migration
add_indexes_to_status_and_created_at = record {
  revision = "da065d87e52a";
  down_revision = some "2e443a9c1a0a";
  upgrade =
      create_index "ix_reservations_created_at" "reservations" "created_at" false
      ∷ create_index "ix_reservations_status" "reservations" "status" false
      ∷ [];
  downgrade =
      drop_index "ix_reservations_status" "reservations"
      ∷ drop_index "ix_reservations_created_at" "reservations"
      ∷ [];
}

abbrev pub add_performance_indexes : Migration
add_performance_indexes = record {
  revision = "cdede027cf9b";
  down_revision = some "da065d87e52a";
  upgrade =
      create_index "ix_order_items_order_id" "order_items" "order_id" false
      ∷ create_index "ix_order_items_product_id" "order_items" "product_id" false
      ∷ create_index "ix_orders_status" "orders" "status" false
      ∷ create_index "ix_orders_user_id" "orders" "user_id" false
      ∷ create_index "ix_reservations_expires_at" "reservations" "expires_at" false
      ∷ create_index "ix_reservations_order_id" "reservations" "order_id" false
      ∷ create_index "ix_reservations_product_id" "reservations" "product_id" false
      ∷ create_index "ix_reservations_user_id" "reservations" "user_id" false
      ∷ [];
  downgrade =
      drop_index "ix_reservations_user_id" "reservations"
      ∷ drop_index "ix_reservations_product_id" "reservations"
      ∷ drop_index "ix_reservations_order_id" "reservations"
      ∷ drop_index "ix_reservations_expires_at" "reservations"
      ∷ drop_index "ix_orders_user_id" "orders"
      ∷ drop_index "ix_orders_status" "orders"
      ∷ drop_index "ix_order_items_product_id" "order_items"
      ∷ drop_index "ix_order_items_order_id" "order_items"
      ∷ [];
}

abbrev pub second_add_performance_indexes : Migration
second_add_performance_indexes = record {
  revision = "2a03cc82fdc7";
  down_revision = some "cdede027cf9b";
  upgrade = [];
  downgrade = [];
}
