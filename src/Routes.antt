-- ===== src/Routes.antt =====
-- The routes of app/services/*/routes.py: the user of a request and the role that a route demands
-- come first, as FastAPI's dependencies do, and then the services.
pub mod Inventory
pub mod Orders
pub mod Users
pub mod Partners
pub mod Dashboards
pub mod Publishing
pub mod Repeated
pub mod Overlap
pub mod Settlements
pub mod Pages
pub mod Uploads
use fair_drop.Common.{ℕ, String, Option, some}
use fair_drop.Exceptions.{Result, ok, err, ◌>>=◌}
use fair_drop.Models.{User}
use fair_drop.Database.{Session}
use fair_drop.Config.{Settings}
use fair_drop.Security.{RoleChecker, call}
use fair_drop.RateLimit.{host_of}
use fair_drop.Users.Access.{Jwt, get_current_user}

-- `Depends(RoleChecker(…))`, which depends on `get_current_user`.
unfoldable pub checked_user : Jwt → Settings → RoleChecker → ℕ → String → Session → Result User
checked_user jwt settings checker now token s = do
  current_user ← get_current_user jwt settings now token s
  call checker current_user

-- A session that is closed after a raise has nothing committed of what the method did.
abbrev pub closed {ℓ} : {A : Type ℓ} → Session → Result (A × Session) → Result A × Session
closed s (err e) = (err e, s)
closed s (ok (answer, s')) = (ok answer, s')

-- The middleware of app/main.py: what it binds for the log calls of the request. `request_id` is
-- the text of the key that `uuid4` draws, and `client` the host that the server sees.
unfoldable pub add_request_context : String → Option String → Session → Session
add_request_context request_id client s = record s {
  context = record { request_id = some request_id; remote_ip = some (host_of client) };
}
