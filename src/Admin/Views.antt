-- ===== src/Admin/Views.antt =====
-- The views of app/core/admin/admin.py that the panel registers, and who may do what in them.
pub mod Guarded
use fair_drop.Common.{
  ◌≡◌, ◌⊎◌, refl, sym, ap, ◌∙◌, inl, inr, Bool, true, false, not, ◌&&◌, ◌||◌, String, Option, none,
  some, List, [], ◌∷◌, All, IsOneOf, one_of, arith, str_eq, if◌then◌else◌,
}
use fair_drop.Models.{User, UserRole, admin, moderator, is_staff}
use fair_drop.Security.{is_admin}
use fair_drop.Admin.{
  PanelRequest, is_accessible, user_admin_is_accessible, is_moderator, is_forbidden,
}

-- What a page of the panel does.
pub data Action : Type 0 where
  listing details create edit delete : Action

pub data PanelModel : Type 0 where
  users products orders reservations audit_logs api_keys verification_requests : PanelModel

-- A class over `ModelView`: what it sets, where it sets it. Its labels, icon, order and formatters
-- are left out.
pub record ModelView : Type 0 where
  pub model : PanelModel
  pub column_list : List String
  pub column_searchable_list : List String
  pub form_columns : Option (List String)
  pub can_create : Option Bool
  pub can_edit : Option Bool
  pub can_delete : Option Bool
  pub is_accessible : Option (Option User → PanelRequest → Bool)

abbrev pub verification_request_admin : ModelView
verification_request_admin = record {
  model = verification_requests;
  column_list =
      "id" ∷ "user_id" ∷ "target_role" ∷ "status" ∷ "docs_url" ∷ "admin_feedback" ∷ "created_at"
      ∷ "updated_at" ∷ [];
  column_searchable_list =
      "id" ∷ "user_id" ∷ "target_role" ∷ "status" ∷ "docs_url" ∷ "admin_feedback" ∷ "created_at"
      ∷ "updated_at" ∷ [];
  form_columns = some ("status" ∷ "admin_feedback" ∷ []);
  can_create = some false;
  can_edit = some true;
  can_delete = some false;
  is_accessible = some (λ u r. is_accessible u);
}

abbrev pub user_admin : ModelView
user_admin = record {
  model = users;
  column_list = "id" ∷ "email" ∷ "role" ∷ "is_active" ∷ [];
  column_searchable_list = "id" ∷ "email" ∷ [];
  form_columns = none;
  can_create = none;
  can_edit = none;
  can_delete = some false;
  is_accessible = some user_admin_is_accessible;
}

abbrev pub product_admin : ModelView
product_admin = record {
  model = products;
  column_list =
      "id" ∷ "name" ∷ "price" ∷ "qty_available" ∷ "status" ∷ "owner_id" ∷ "moderator_id"
      ∷ "moderation_comment" ∷ [];
  column_searchable_list = "id" ∷ "name" ∷ "description" ∷ "moderation_comment" ∷ [];
  form_columns = some ("status" ∷ "moderator_id" ∷ "moderation_comment" ∷ []);
  can_create = none;
  can_edit = none;
  can_delete = some false;
  is_accessible = none;
}

abbrev pub order_admin : ModelView
order_admin = record {
  model = orders;
  column_list = "id" ∷ "user_id" ∷ "status" ∷ "total_amount" ∷ "created_at" ∷ [];
  column_searchable_list = "id" ∷ "user_id" ∷ [];
  form_columns = none;
  can_create = none;
  can_edit = none;
  can_delete = some false;
  is_accessible = none;
}

abbrev pub reservation_admin : ModelView
reservation_admin = record {
  model = reservations;
  column_list =
      "id" ∷ "product_id" ∷ "user_id" ∷ "qty_reserved" ∷ "status" ∷ "created_at" ∷ "expires_at"
      ∷ [];
  column_searchable_list = "id" ∷ "user_id" ∷ [];
  form_columns = none;
  can_create = none;
  can_edit = none;
  can_delete = some false;
  is_accessible = none;
}

abbrev pub audit_log_admin : ModelView
audit_log_admin = record {
  model = audit_logs;
  column_list = "id" ∷ "target_type" ∷ "target_id" ∷ "actor_id" ∷ "action" ∷ [];
  column_searchable_list = "target_type" ∷ "target_id" ∷ "action" ∷ [];
  form_columns = none;
  can_create = some false;
  can_edit = some false;
  can_delete = some false;
  is_accessible = some (λ u r. is_accessible u);
}

abbrev pub api_key_b2b_partner_admin : ModelView
api_key_b2b_partner_admin = record {
  model = api_keys;
  column_list = "id" ∷ "user_id" ∷ "name" ∷ "key_prefix" ∷ "is_active" ∷ [];
  column_searchable_list = "name" ∷ "key_prefix" ∷ [];
  form_columns = none;
  can_create = none;
  can_edit = none;
  can_delete = some false;
  is_accessible = some (λ u r. is_accessible u);
}

abbrev pub register_admin_views : List ModelView
register_admin_views =
    user_admin ∷ product_admin ∷ order_admin ∷ reservation_admin ∷ audit_log_admin
    ∷ api_key_b2b_partner_admin ∷ verification_request_admin ∷ []

-- The value that a view sets, or the library's own.
abbrev pub or_default {ℓ} : {A : Type ℓ} → A → Option A → A
or_default a none = a
or_default a (some b) = b

-- The name of the method that answers for a page.
abbrev pub endpoint_of : Action → String
endpoint_of listing = "list"
endpoint_of details = "details"
endpoint_of create = "create"
endpoint_of edit = "edit"
endpoint_of delete = "delete"

-- sqladmin, a parameter: whether a page answers a request of a user. It answers where the view has
-- not switched the page off and lets the user in; the endpoint in the request's scope, which Starlette
-- sets, is the page's method.
pub record SqlAdmin : Type 0 where
  pub can_by_default : Bool
  pub allowed : ModelView → Action → Option User → PanelRequest → Bool
  pub allowed-create :
      (v : ModelView) (u : Option User) (r : PanelRequest)
      → allowed v create u r ≡ true
      → or_default can_by_default v.can_create ≡ true
  pub allowed-edit :
      (v : ModelView) (u : Option User) (r : PanelRequest)
      → allowed v edit u r ≡ true
      → or_default can_by_default v.can_edit ≡ true
  pub allowed-delete :
      (v : ModelView) (u : Option User) (r : PanelRequest)
      → allowed v delete u r ≡ true
      → or_default can_by_default v.can_delete ≡ true
  pub allowed-is_accessible :
      (v : ModelView) (a : Action) (u : Option User) (r : PanelRequest)
      → allowed v a u r ≡ true
      → or_default (λ u r. true) v.is_accessible u r ≡ true
  pub allowed-endpoint :
      (v : ModelView) (a : Action) (u : Option User) (r : PanelRequest)
      → allowed v a u r ≡ true
      → r.endpoint_name ≡ endpoint_of a
