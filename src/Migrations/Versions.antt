-- ===== src/Migrations/Versions.antt =====
-- The files of migrations/versions, each a migration, and their chain.
mod Tables
mod Indexes
mod Roles
pub use Tables.*
pub use Indexes.*
pub use Roles.*
use fair_drop.Common.{List, [], ◌∷◌, ◌++◌}
use fair_drop.Migrations.{Operation, Migration}

-- The migrations in the order of their `down_revision`s, from the base to the head.
abbrev pub versions : List Migration
versions =
    initial_migration ∷ add_inventory_models ∷ add_order_models ∷ refine_models_relationship
    ∷ add_refresh_tokens ∷ make_price_non_nullable ∷ add_order_status_param ∷ first_placeholder
    ∷ second_placeholder ∷ add_product_image_model ∷ make_datetime_timezone_aware
    ∷ add_indexes_to_status_and_created_at ∷ add_performance_indexes
    ∷ second_add_performance_indexes ∷ add_rbac_and_product_status ∷ add_product_owner_id
    ∷ add_audit_log_model ∷ add_moderation_statuses_and_moderator_id ∷ add_b2b_api_keys
    ∷ add_verification_requests ∷ add_product_moderation_comment ∷ []

-- The directives of `alembic upgrade head`, from the base.
abbrev pub upgrades : List Migration → List Operation
upgrades [] = []
upgrades (m ∷ ms) = m.upgrade ++ upgrades ms
