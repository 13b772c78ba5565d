-- ===== src/Models.antt =====
-- The rows of the database (app/services/*/models.py) without their primary keys, which the tables
-- hold. Identifiers are UUIDs, which the program only compares, and instants are microseconds;
-- both are naturals. Prices are whole cents, since the columns are Numeric(10, 2).
-- `updated_at`, which no service reads, is left out.
use fair_drop.Common.{ℕ, Bool, true, false, String, Option}
use fair_drop.Json.{Dict}

pub data UserRole : Type 0 where
  admin moderator user user_b2b seller seller_b2b : UserRole

pub record User : Type 0 where
  pub id : ℕ
  pub email : String
  pub password_hash : String
  pub is_active : Bool
  pub is_verified : Bool
  pub role : UserRole

pub data ProductStatus : Type 0 where
  draft active archived pending_moderation moderation_in_progress rejected : ProductStatus

-- The place in the enumeration, by which statuses are told apart.
abbrev pub product_status_index : ProductStatus → ℕ
product_status_index draft = 0
product_status_index active = 1
product_status_index archived = 2
product_status_index pending_moderation = 3
product_status_index moderation_in_progress = 4
product_status_index rejected = 5

pub record Product : Type 0 where
  pub owner_id : ℕ
  pub name : String
  pub description : Option String
  pub price : ℕ
  pub qty_available : ℕ
  pub created_at : ℕ
  pub status : ProductStatus
  pub moderator_id : Option ℕ
  pub moderation_comment : Option String

-- `OrderStatus`, of app/services/orders/models.py; reservations use it too.
pub data OrderStatus : Type 0 where
  pending paid shipped cancelled failed completed expired : OrderStatus

abbrev pub order_status_index : OrderStatus → ℕ
order_status_index OrderStatus.pending = 0
order_status_index OrderStatus.paid = 1
order_status_index OrderStatus.shipped = 2
order_status_index OrderStatus.cancelled = 3
order_status_index OrderStatus.failed = 4
order_status_index OrderStatus.completed = 5
order_status_index OrderStatus.expired = 6

pub record Reservation : Type 0 where
  pub qty_reserved : ℕ
  pub user_id : ℕ
  pub product_id : ℕ
  pub status : OrderStatus
  pub idempotency_key : String
  pub order_id : Option ℕ
  pub expires_at : ℕ

pub record Order : Type 0 where
  pub user_id : ℕ
  pub status : OrderStatus
  pub total_amount : ℕ
  pub shipping_address : Option String
  pub created_at : ℕ

pub record OrderItem : Type 0 where
  pub order_id : ℕ
  pub product_id : ℕ
  pub product_name : String
  pub quantity : ℕ
  pub price : ℕ

pub data ImageStatus : Type 0 where
  pending active inactive failed : ImageStatus

pub record ProductImage : Type 0 where
  pub product_id : ℕ
  pub file_path : String
  pub status : ImageStatus

pub record RefreshToken : Type 0 where
  pub user_id : ℕ
  pub token : String
  pub expires_at : ℕ

pub record ApiKey : Type 0 where
  pub user_id : ℕ
  pub name : String
  pub key_prefix : String
  pub hashed_key : String
  pub is_active : Bool
  pub expires_at : Option ℕ
  pub last_used_at : Option ℕ

pub data VerificationStatus : Type 0 where
  pending approved rejected : VerificationStatus

pub record VerificationRequest : Type 0 where
  pub user_id : ℕ
  pub target_role : UserRole
  pub status : VerificationStatus
  pub docs_url : Option Dict
  pub admin_feedback : Option String
  pub created_at : ℕ

pub record AuditLog : Type 0 where
  pub target_type : String
  pub target_id : ℕ
  pub actor_id : ℕ
  pub action : String
  pub changes : Dict
  pub remote_ip : Option String
  pub request_id : Option String

-- `user.role in (UserRole.ADMIN, UserRole.MODERATOR)`
abbrev pub is_staff : UserRole → Bool
is_staff admin = true
is_staff moderator = true
is_staff _ = false

-- `user.role in (UserRole.SELLER, UserRole.SELLER_B2B)`
abbrev pub is_seller : UserRole → Bool
is_seller seller = true
is_seller seller_b2b = true
is_seller _ = false

-- `status == OrderStatus.PENDING`
abbrev pub is_pending : OrderStatus → Bool
is_pending pending = true
is_pending _ = false

-- The names of the enumerations' members, which are their values.
abbrev pub order_status_name : OrderStatus → String
order_status_name pending = "PENDING"
order_status_name paid = "PAID"
order_status_name shipped = "SHIPPED"
order_status_name cancelled = "CANCELLED"
order_status_name failed = "FAILED"
order_status_name completed = "COMPLETED"
order_status_name expired = "EXPIRED"

abbrev pub product_status_name : ProductStatus → String
product_status_name draft = "DRAFT"
product_status_name active = "ACTIVE"
product_status_name archived = "ARCHIVED"
product_status_name pending_moderation = "PENDING_MODERATION"
product_status_name moderation_in_progress = "MODERATION_IN_PROGRESS"
product_status_name rejected = "REJECTED"
