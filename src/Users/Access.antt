-- ===== src/Users/Access.antt =====
-- Access tokens: `create_access_token` of app/core/security.py, the bodies of the routes `/users`
-- and `/auth/token` of app/services/user/routes.py, and the dependencies of app/shared/deps.py that find
-- the user of a request. Whether the rate limiter lets a request pass is an argument.
pub mod Current
use fair_drop.Common.{
  ℕ, suc, ◌+◌, ◌*◌, ◌≤◌, ◌≡◌, Bool, true, false, not, String, Option, none, some, str_eq,
  if◌then◌else◌,
}
use fair_drop.Common.Table.{get, select}
use fair_drop.Exceptions.{
  Result, ok, err, credentials_error, permission_denied, integrity_error, rate_limit_exceeded,
  ◌>>=◌, ◌>>◌, raise_if, or_raise, scalar_one_or_none,
}
use fair_drop.Models.{User, ApiKey}
use fair_drop.Database.{Session}
use fair_drop.Config.{Settings, microseconds_per_minute}
use fair_drop.Users.Hashing.{Hashing}
use fair_drop.Users.Accounts.{has_email, create_user, authenticate_user}
use fair_drop.Users.Tokens.{create_refresh_token}
use fair_drop.Users.ApiKeys.{authenticate_api_key_b2b_partner}

-- The payload of a token: `sub`, where it is there, and `exp`.
pub record Claims : Type 0 where
  pub sub : Option String
  pub exp : ℕ

-- The JWT library, a parameter: `encode` takes the key and the algorithm, and so does `decode`, which
-- reads the clock and answers none where it raises `JWTError`. A token that expires in a second or
-- later, which is what it measures in, decodes to its own subject.
pub record Jwt : Type 0 where
  pub encode : Claims → String → String → String
  pub decode : ℕ → String → String → String → Option Claims
  pub decode-encode :
      (now : ℕ) (c : Claims) (key algorithm : String)
      → now + 1000000 ≤ c.exp
      → (d : Claims) × (decode now (encode c key algorithm) key algorithm ≡ some d)
        × (d.sub ≡ c.sub)

pub record Token : Type 0 where
  pub access_token : String
  pub refresh_token : String

-- `request.session.get('token')` holds the key of a user.
abbrev pub session_user : Option ℕ → Session → Result User
session_user none s = err credentials_error
session_user (some user_id) s = or_raise (get user_id s.users) credentials_error

-- `except CredentialsError: pass`
abbrev pub or_session : Result User → Option ℕ → Session → Result User
or_session (err credentials_error) session_token s = session_user session_token s
or_session answer session_token s = answer

module _ (jwt : Jwt) (settings : Settings) where
  -- A zero `expires_delta` counts as none.
  abbrev pub lifetime : Option ℕ → ℕ
  lifetime (some (suc delta)) = suc delta
  lifetime _ = settings.access_token_expire_minutes * microseconds_per_minute

  unfoldable pub create_access_token : ℕ → Option String → Option ℕ → String
  create_access_token now sub expires_delta =
      jwt.encode (record { sub = sub; exp = now + lifetime expires_delta }) settings.secret_key
        settings.jwt_algorithm

  unfoldable pub get_current_user : ℕ → String → Session → Result User
  get_current_user now token s = do
    payload ←
        or_raise (jwt.decode now token settings.secret_key settings.jwt_algorithm) credentials_error
    email ← or_raise payload.sub credentials_error
    found ← scalar_one_or_none (select (has_email email) s.users)
    row ← or_raise found credentials_error
    ok row.1

  unfoldable pub get_current_user_flexible : ℕ → Option String → Option ℕ → Session → Result User
  get_current_user_flexible now none session_token s = session_user session_token s
  get_current_user_flexible now (some token) session_token s =
      if str_eq token ""
      then session_user session_token s
      else or_session (get_current_user now token s) session_token s

module _ (h : Hashing) where
  -- The route `/users`, behind its rate limit.
  unfoldable pub register : Bool → ℕ → ℕ → String → String → Session → Result (User × Session)
  register within_limit id salt email password s = do
    raise_if (not within_limit) rate_limit_exceeded
    create_user h id salt email password s

  -- The route `/auth/token`, behind its rate limit. `id` and `token` are what is drawn for the refresh token.
  unfoldable pub login :
      Jwt → Settings → Bool → ℕ → ℕ → String → String → String → Session → Result (Token × Session)
  login jwt settings within_limit now id token email password s = do
    raise_if (not within_limit) rate_limit_exceeded
    found ← authenticate_user h email password s
    u ← or_raise found credentials_error
    issued ← create_refresh_token settings now id token u.id s
    ok (
      record {
        access_token = create_access_token jwt settings now (some u.email) none;
        refresh_token = issued.0;
      },
      issued.1,
    )

  abbrev pub key_user : Option ApiKey → Session → Result User
  key_user found s = do
    k ← or_raise found permission_denied
    or_raise (get k.user_id s.users) integrity_error

  -- The answer, and the session, in which the key's use is committed.
  unfoldable pub get_api_key_user : ℕ → Option String → Session → Result User × Session
  get_api_key_user now none s = (err permission_denied, s)
  get_api_key_user now (some api_key) s =
      let (found, s') = authenticate_api_key_b2b_partner h now api_key s in
      if str_eq api_key "" then (err permission_denied, s) else (key_user found s', s')
