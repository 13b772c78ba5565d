-- ===== src/Config.antt =====
-- The settings of app/core/config.py that the modelled code reads.
use fair_drop.Common.{ℕ, String}

pub record Settings : Type 0 where
  pub unverified_seller_limit : ℕ
  pub verified_seller_limit : ℕ
  pub reserve_timeout_minutes : ℕ
  pub refresh_token_expire_days : ℕ
  pub access_token_expire_minutes : ℕ
  pub secret_key : String
  pub jwt_algorithm : String
  pub rate_limit_user_rps : ℕ
  pub rate_limit_global_rps : ℕ
  pub rate_limit_ttl_seconds : ℕ
  pub login_rate_limit_attempts : ℕ
  pub login_rate_limit_ttl : ℕ
  pub signup_rate_limit_attempts : ℕ
  pub signup_rate_limit_ttl : ℕ
  pub idempotent_key_lifetime_sec : ℕ
  pub presigned_url_expire_seconds : ℕ
  pub min_file_size_bytes : ℕ
  pub max_file_size_bytes : ℕ
  pub minio_bucket_name : String
  pub minio_url : String
  pub s3_public_url : String

abbrev pub microseconds_per_second : ℕ
microseconds_per_second = 1000000

abbrev pub microseconds_per_minute : ℕ
microseconds_per_minute = 60000000
