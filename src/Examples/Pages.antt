-- ===== src/Examples/Pages.antt =====
-- The pages of the admin panel, with a library that answers wherever it may; an error's answer, and
-- an address.
use fair_drop.Common.{
  ◌≡◌, refl, inl, inr, Bool, true, ◌&&◌, Option, some, and_true, str_eq, str_eq_iff,
}
use fair_drop.Exceptions.{credentials_error}
use fair_drop.Exceptions.Handlers.{
  JsonResponse, respond, credentials_error_handler, default_message, headers, IsInformative,
  respond-IsInformative,
}
use fair_drop.Startup.{DatabaseSettings, database_url}
use fair_drop.Models.{User, admin}
use fair_drop.Admin.{PanelRequest, is_accessible}
use fair_drop.Admin.Views.{
  Action, listing, details, create, edit, delete, ModelView, SqlAdmin, or_default, endpoint_of,
  verification_request_admin, verification_requests,
}
use fair_drop.Admin.Views.Guarded.{may, allowed-may}
use fair_drop.Examples.Sample.{reviewer}

abbrev switched_on : Action → ModelView → Bool
switched_on listing v = true
switched_on details v = true
switched_on create v = or_default true v.can_create
switched_on edit v = or_default true v.can_edit
switched_on delete v = or_default true v.can_delete

abbrev plain_allowed : ModelView → Action → Option User → PanelRequest → Bool
plain_allowed v a u r =
    str_eq r.endpoint_name (endpoint_of a)
    && (switched_on a v && or_default (λ u r. true) v.is_accessible u r)

pub plain_parts :
    (v : ModelView) (a : Action) (u : Option User) (r : PanelRequest)
    → plain_allowed v a u r ≡ true
    → (str_eq r.endpoint_name (endpoint_of a) ≡ true)
      × (switched_on a v ≡ true)
      × (or_default (λ u r. true) v.is_accessible u r ≡ true)
plain_parts v a u r h =
    let (named, rest) =
      and_true (str_eq r.endpoint_name (endpoint_of a))
        (switched_on a v && or_default (λ u r. true) v.is_accessible u r) h in
    let (on, entered) =
      and_true (switched_on a v) (or_default (λ u r. true) v.is_accessible u r) rest in
    (named, on, entered)

abbrev plain_admin : SqlAdmin
plain_admin = record {
  can_by_default = true;
  allowed = plain_allowed;
  allowed-create = λ v u r h. (plain_parts v create u r h).1;
  allowed-edit = λ v u r h. (plain_parts v edit u r h).1;
  allowed-delete = λ v u r h. (plain_parts v delete u r h).1;
  allowed-is_accessible = λ v a u r h. (plain_parts v a u r h).2;
  allowed-endpoint =
      λ v a u r h. (str_eq_iff r.endpoint_name (endpoint_of a)).0 (plain_parts v a u r h).0;
}

abbrev head : User
head = record reviewer { role = admin }

abbrev edit_request : PanelRequest
edit_request = record {
  endpoint_name = "edit";
  route_name = "";
  path = "/admin/verification-request/edit/1";
}

edit_request_allowed : plain_allowed verification_request_admin edit (some head) edit_request ≡ true
unfolding is_accessible
edit_request_allowed = refl

allowed-may_example : may verification_requests edit (some head) ≡ true
allowed-may_example =
    allowed-may plain_admin verification_request_admin edit (some head) edit_request
      (inr (inr (inr (inr (inr (inr (inl refl))))))) edit_request_allowed

abbrev unknown_user : JsonResponse
unknown_user = record {
  status = 401;
  detail = "Could not validate credentials";
  header = some ("WWW-Authenticate", "Bearer");
}

unknown_user_answered :
    respond credentials_error (default_message credentials_error) ≡ some unknown_user
unfolding respond credentials_error_handler default_message headers
unknown_user_answered = refl

respond-IsInformative_example : IsInformative (default_message credentials_error) unknown_user
respond-IsInformative_example =
    respond-IsInformative credentials_error (default_message credentials_error) unknown_user
      unknown_user_answered

abbrev unmasked : DatabaseSettings
unmasked = record {
  db_user = "fairdrop";
  db_password = "secret";
  db_host = "db";
  db_port = "5432";
  db_name = "fairdrop";
}

same_address : database_url unmasked ≡ "postgresql+asyncpg://fairdrop:secret@db:5432/fairdrop"
unfolding database_url
same_address = refl
