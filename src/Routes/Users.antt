-- ===== src/Routes/Users.antt =====
-- The routes of app/services/user/routes.py with the schemas of app/services/user/schemas.py. What
-- `uuid4`, `secrets` and bcrypt draw are arguments, as is the time.
pub mod Guesses
pub mod Keys
pub mod Registered
use fair_drop.Common.{ℕ, Bool, true, false, not, ◌==◌, String, Option, none, some, List, [], ◌∷◌}
use fair_drop.Common.Table.{Table, select}
use fair_drop.Exceptions.{
  Result, ok, err, no_such_resource, rate_limit_exceeded, unprocessable, ◌>>=◌, ◌>>◌, or_raise,
  raise_if,
}
use fair_drop.Config.{Settings}
use fair_drop.Json.{Dict}
use fair_drop.Models.{
  User, UserRole, user_b2b, seller_b2b, seller, ApiKey, VerificationRequest, VerificationStatus,
}
use fair_drop.Database.{Session}
use fair_drop.Security.{RoleChecker}
use fair_drop.Users.Hashing.{Hashing}
use fair_drop.Users.Accounts.{create_user}
use fair_drop.Users.Tokens.{refresh_token}
use fair_drop.Users.ApiKeys.{create_api_key_b2b_partner, delete_api_key_b2b_partner}
use fair_drop.Users.Verification.{
  create_verification_request, get_verification_requests, get_latest_verification_request,
}
use fair_drop.Users.Access.{Jwt, Token, create_access_token, get_current_user, register, login}
use fair_drop.RateLimit.{Counters, limit_login_attempts, limit_signup_attempts}
use fair_drop.RateLimit.Window.{is_ok}
use fair_drop.Routes.{checked_user, closed}

abbrev pub b2b_partner_dep : RoleChecker
b2b_partner_dep = record { allowed_roles = user_b2b ∷ seller_b2b ∷ []; required_verified = false }

pub record UserRead : Type 0 where
  pub id : ℕ
  pub email : String
  pub role : UserRole

abbrev pub user_read : User → UserRead
user_read u = record { id = u.id; email = u.email; role = u.role }

-- The time of a key's creation, which nothing reads, is left out.
pub record ApiKeyRead : Type 0 where
  pub id : ℕ
  pub name : String
  pub key_prefix : String
  pub is_active : Bool
  pub expires_at : Option ℕ
  pub last_used_at : Option ℕ

abbrev pub api_key_read : ℕ → ApiKey → ApiKeyRead
api_key_read id k = record {
  id = id;
  name = k.name;
  key_prefix = k.key_prefix;
  is_active = k.is_active;
  expires_at = k.expires_at;
  last_used_at = k.last_used_at;
}

unfoldable pub api_key_reads : Table ApiKey → List ApiKeyRead
api_key_reads [] = []
api_key_reads ((id, k) ∷ rows) = api_key_read id k ∷ api_key_reads rows

pub record ApiKeyWithSecret : Type 0 where
  pub data_read : ApiKeyRead
  pub raw_key : String

-- `Literal[UserRole.USER_B2B, UserRole.SELLER_B2B, UserRole.SELLER]`
pub data TargetRole : Type 0 where
  to_user_b2b to_seller_b2b to_seller : TargetRole

abbrev pub target_user_role : TargetRole → UserRole
target_user_role to_user_b2b = user_b2b
target_user_role to_seller_b2b = seller_b2b
target_user_role to_seller = seller

pub record VerificationRequestCreate : Type 0 where
  pub target_role : TargetRole
  pub docs_url : Option Dict

pub record VerificationRequestRead : Type 0 where
  pub id : ℕ
  pub target_role : UserRole
  pub status : VerificationStatus
  pub admin_feedback : Option String
  pub created_at : ℕ

abbrev pub verification_request_read : ℕ → VerificationRequest → VerificationRequestRead
verification_request_read id v = record {
  id = id;
  target_role = v.target_role;
  status = v.status;
  admin_feedback = v.admin_feedback;
  created_at = v.created_at;
}

unfoldable pub request_reads : Table VerificationRequest → List VerificationRequestRead
request_reads [] = []
request_reads ((id, v) ∷ rows) = verification_request_read id v ∷ request_reads rows

-- A limit that is passed raises before the body's errors are answered.
unfoldable pub register_address :
    Hashing → Bool → ℕ → ℕ → Option String → String → Session → Result (User × Session)
register_address h within id salt none password s = do
  raise_if (not within) rate_limit_exceeded
  err unprocessable
register_address h within id salt (some email) password s =
    register h within id salt email password s

-- The routes with a rate limit: the counters stay as the check leaves them when a route raises.
module _ (redis : Counters) (h : Hashing) (settings : Settings) where
  -- `email: EmailStr` of `UserCreate`: the first argument validates an address and writes its domain in
  -- the normal form, as `email-validator` does; the body is read after the rate limit.
  unfoldable pub create_user_route :
      (String → Option String)
      → ℕ
      → ℕ
      → ℕ
      → Option String
      → String
      → String
      → redis.Store
      → Session
      → Result UserRead × redis.Store × Session
  create_user_route validate_email now id salt client email password counters s =
      let (within, counters') = limit_signup_attempts redis settings now client counters in
      let (answer, s') =
        closed s (register_address h (is_ok within) id salt (validate_email email) password s) in
      ((do u ← answer; ok (user_read u)), counters', s')

  pub login_route :
      Jwt
      → ℕ
      → ℕ
      → String
      → String
      → String
      → redis.Store
      → Session
      → Result Token × redis.Store × Session
  login_route jwt now id token email password counters s =
      let (within, counters') = limit_login_attempts redis settings now email counters in
      let (answer, s') =
        closed s (login h jwt settings (is_ok within) now id token email password s) in
      (answer, counters', s')

module _ (jwt : Jwt) (settings : Settings) (now : ℕ) where
  unfoldable pub refresh_token_route : ℕ → String → String → Session → Result (Token × Session)
  refresh_token_route id new old s = do
    refreshed ← refresh_token settings now id new old s
    ok (
      record {
        access_token = create_access_token jwt settings now (some refreshed.0.email) none;
        refresh_token = new;
      },
      refreshed.1,
    )

  module _ (token : String) where
    unfoldable pub read_user_me : Session → Result UserRead
    read_user_me s = do
      current_user ← get_current_user jwt settings now token s
      ok (user_read current_user)

    unfoldable pub create_api_key_route :
        Hashing → ℕ → ℕ → String → String → Session → Result (ApiKeyWithSecret × Session)
    create_api_key_route h id salt raw_key name s = do
      current_user ← checked_user jwt settings b2b_partner_dep now token s
      made ← create_api_key_b2b_partner h id salt raw_key current_user.id name s
      ok (record { data_read = api_key_read id made.0; raw_key = made.1 }, made.2)

    unfoldable pub get_api_keys_b2b_partners : Session → Result (List ApiKeyRead)
    get_api_keys_b2b_partners s = do
      current_user ← checked_user jwt settings b2b_partner_dep now token s
      ok (api_key_reads (select (λ k. k.user_id == current_user.id) s.api_keys))

    pub delete_api_key_route : ℕ → Session → Result Session
    delete_api_key_route key_id s = do
      current_user ← checked_user jwt settings b2b_partner_dep now token s
      delete_api_key_b2b_partner current_user.id key_id s

    unfoldable pub create_upgrade_request :
        ℕ → VerificationRequestCreate → Session → Result (VerificationRequestRead × Session)
    create_upgrade_request id schema s = do
      current_user ← get_current_user jwt settings now token s
      made ←
          create_verification_request now id current_user.id (target_user_role schema.target_role)
            schema.docs_url s
      ok (verification_request_read id made.0, made.1)

    unfoldable pub get_upgrade_requests : Session → Result (List VerificationRequestRead)
    get_upgrade_requests s = do
      current_user ← get_current_user jwt settings now token s
      ok (request_reads (get_verification_requests current_user.id s))

    unfoldable pub get_latest_upgrade_request : Session → Result VerificationRequestRead
    get_latest_upgrade_request s = do
      current_user ← get_current_user jwt settings now token s
      row ← or_raise (get_latest_verification_request current_user.id s) no_such_resource
      ok (verification_request_read row.0 row.1)
