-- ===== src/Examples/Sample.antt =====
-- A shop with a seller's product, a buyer with two reservations, one of them ordered, and a
-- moderator.
use fair_drop.Common.{true, false, none, some, [], ◌∷◌, arith}
use fair_drop.Common.Table.{get, sum}
use fair_drop.Models.{
  User, user, seller, moderator, Product, active, moderation_in_progress, Reservation, Order,
  OrderItem, OrderStatus,
}
use fair_drop.Database.{Session}
use fair_drop.Config.{Settings}
use fair_drop.Stock.{IsStorable}
use fair_drop.Lifecycle.{IsConsistent}

abbrev pub settings : Settings
settings = record {
  unverified_seller_limit = 3;
  verified_seller_limit = 100;
  reserve_timeout_minutes = 15;
  refresh_token_expire_days = 7;
  access_token_expire_minutes = 30;
  secret_key = "secret";
  jwt_algorithm = "HS256";
  rate_limit_user_rps = 5;
  rate_limit_global_rps = 100;
  rate_limit_ttl_seconds = 1;
  login_rate_limit_attempts = 5;
  login_rate_limit_ttl = 60;
  signup_rate_limit_attempts = 3;
  signup_rate_limit_ttl = 3600;
  idempotent_key_lifetime_sec = 3600;
  presigned_url_expire_seconds = 900;
  min_file_size_bytes = 1;
  max_file_size_bytes = 10485760;
  minio_bucket_name = "fairdrop-media";
  minio_url = "http://minio:9000";
  s3_public_url = "http://localhost:9000";
}

abbrev pub buyer : User
buyer = record {
  id = 1;
  email = "buyer@example.com";
  password_hash = "hash of buyer";
  is_active = true;
  is_verified = false;
  role = user;
}

abbrev pub vendor : User
vendor = record {
  id = 2;
  email = "vendor@example.com";
  password_hash = "hash of vendor";
  is_active = true;
  is_verified = true;
  role = seller;
}

abbrev pub reviewer : User
reviewer = record {
  id = 3;
  email = "reviewer@example.com";
  password_hash = "hash of reviewer";
  is_active = true;
  is_verified = true;
  role = moderator;
}

abbrev pub lamp : Product
lamp = record {
  owner_id = 2;
  name = "lamp";
  description = none;
  price = 1000;
  qty_available = 5;
  created_at = 1;
  status = active;
  moderator_id = none;
  moderation_comment = none;
}

abbrev pub chair : Product
chair = record lamp { name = "chair"; status = moderation_in_progress; moderator_id = some 3 }

abbrev pub plain_reservation : Reservation
plain_reservation = record {
  qty_reserved = 2;
  user_id = 1;
  product_id = 10;
  status = OrderStatus.pending;
  idempotency_key = "k20";
  order_id = none;
  expires_at = 100;
}

abbrev pub ordered_reservation : Reservation
ordered_reservation = record plain_reservation {
  qty_reserved = 1;
  idempotency_key = "k21";
  order_id = some 30;
}

abbrev pub placed_order : Order
placed_order = record {
  user_id = 1;
  status = OrderStatus.pending;
  total_amount = 1000;
  shipping_address = some "1 Main Street";
  created_at = 2;
}

abbrev pub placed_item : OrderItem
placed_item = record {
  order_id = 30;
  product_id = 10;
  product_name = "lamp";
  quantity = 1;
  price = 1000;
}

abbrev pub shop : Session
shop = record {
  users = (1, buyer) ∷ (2, vendor) ∷ (3, reviewer) ∷ [];
  products = (10, lamp) ∷ (11, chair) ∷ [];
  reservations = (20, plain_reservation) ∷ (21, ordered_reservation) ∷ [];
  orders = (30, placed_order) ∷ [];
  order_items = (40, placed_item) ∷ [];
  images = [];
  refresh_tokens = [];
  api_keys = [];
  verification_requests = [];
  audit_logs = [];
  context = record { request_id = some "r1"; remote_ip = some "10.0.0.1" };
}

pub shop-IsConsistent : IsConsistent shop
unfolding get
shop-IsConsistent = record {
  reservations_keyed = ground arith;
  orders_keyed = ground arith;
  linked = λ id r order_id found link. (placed_order, ground arith, ground arith, ground arith);
  single = λ i r j q order_id e f l m. ground arith;
  backed = λ order_id o found. (21, ordered_reservation, ground arith, ground arith);
}

pub shop-IsStorable : IsStorable shop
unfolding get sum
shop-IsStorable = record { fits = λ id p found. (ground arith, ground arith, ground arith) }
