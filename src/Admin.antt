-- ===== src/Admin.antt =====
-- The admin panel: the login of app/core/admin/admin_auth.py and the access tests of
-- app/core/admin/admin.py.
pub mod Panel
pub mod Formatters
pub mod Views
use fair_drop.Common.{
  ℕ, Bool, true, false, not, ◌&&◌, ◌||◌, String, Option, none, some, List, [], ◌∷◌, ◌++◌, str_eq,
  contains, if◌then◌else◌,
}
use fair_drop.Common.Table.{get}
use fair_drop.Exceptions.{Error, permission_denied, Result, ok, err, ◌>>=◌}
use fair_drop.Models.{User, UserRole, admin, moderator, is_staff}
use fair_drop.Database.{Session}
use fair_drop.Security.{is_admin, check_permission}
use fair_drop.Users.Hashing.{Hashing}
use fair_drop.Users.Accounts.{authenticate_user}

-- `request.session`, of which the code uses the key `token`: the user's id.
abbrev pub Browser : Type 0
Browser = Option ℕ

-- `try: await check_permission(…) … except PermissionDeniedError: return False`
abbrev pub entered : Result (Unit {0}) → User → Browser → Result (Bool × Browser)
entered (ok _) u browser = ok (true, some u.id)
entered (err permission_denied) u browser = ok (false, browser)
entered (err e) u browser = err e

abbrev pub admit : Option User → Browser → Result (Bool × Browser)
admit none browser = ok (false, browser)
admit (some u) browser = entered (check_permission u (admin ∷ moderator ∷ []) false) u browser

-- The form's fields, where they are texts.
unfoldable pub login :
    Hashing → Option String → Option String → Session → Browser → Result (Bool × Browser)
login h none password s browser = ok (false, browser)
login h (some email) none s browser = ok (false, browser)
login h (some email) (some password) s browser = do
  found ← authenticate_user h email password s
  admit found browser

abbrev pub logout : Browser → Bool × Browser
logout browser = (true, none)

abbrev pub admitted : Option User → Bool × Option User
admitted none = (false, none)
admitted (some u) = if is_staff u.role then (true, some u) else (false, none)

-- The answer, and `request.state.user`.
pub authenticate : Browser → Session → Bool × Option User
authenticate none s = (false, none)
authenticate (some token) s = admitted (get token s.users)

-- `AdminAccessMixin.is_accessible`, of the requests for a role, the audit log and the API keys.
unfoldable pub is_accessible : Option User → Bool
is_accessible none = false
is_accessible (some u) = is_admin u.role

-- `AdminAccessMixin.is_visible`
unfoldable pub is_visible : Option User → Bool
is_visible none = false
is_visible (some u) = is_admin u.role

abbrev pub is_moderator : UserRole → Bool
is_moderator moderator = true
is_moderator _ = false

-- The names in the request's scope, and its path.
pub record PanelRequest : Type 0 where
  pub endpoint_name : String
  pub route_name : String
  pub path : String

-- `forbidden = {'create', 'edit', 'delete'}`
abbrev pub is_forbidden_name : String → Bool
is_forbidden_name name = str_eq name "create" || (str_eq name "edit" || str_eq name "delete")

abbrev pub is_forbidden_path : String → Bool
is_forbidden_path path =
    contains "/create/" path || (contains "/edit/" path || contains "/delete/" path)

abbrev pub is_forbidden : PanelRequest → Bool
is_forbidden r =
    is_forbidden_name r.endpoint_name
    || (is_forbidden_name r.route_name || is_forbidden_path r.path)

-- `UserAdmin.is_accessible`
pub user_admin_is_accessible : Option User → PanelRequest → Bool
user_admin_is_accessible none r = false
user_admin_is_accessible (some u) r =
    if is_moderator u.role && is_forbidden r then false else is_staff u.role
