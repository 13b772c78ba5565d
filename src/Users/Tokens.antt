-- ===== src/Users/Tokens.antt =====
-- Refresh tokens: `create_refresh_token` and `refresh_access_token` of `UserService`, and the route
-- `/auth/refresh`, which joins them. A token's text is what `secrets` draws, an argument here.
pub mod Rotation
use fair_drop.Common.{
  ℕ, ◌+◌, ◌*◌, Bool, not, ◌||◌, String, Option, none, some, [], ◌∷◌, ◌++◌, ltb, str_eq,
}
use fair_drop.Common.Table.{Table, get, select, delete}
use fair_drop.Exceptions.{
  Error, Result, ok, err, credentials_error, integrity_error, ◌>>=◌, ◌>>◌, raise_if, or_raise,
  scalar_one_or_none,
}
use fair_drop.Models.{User, RefreshToken}
use fair_drop.Database.{Session, is_some, is_empty}
use fair_drop.Config.{Settings}

abbrev pub microseconds_per_day : ℕ
microseconds_per_day = 86400000000

abbrev pub has_token : String → RefreshToken → Bool
has_token token t = str_eq t.token token

abbrev pub new_refresh_token : Settings → ℕ → String → ℕ → RefreshToken
new_refresh_token settings now token user_id = record {
  user_id = user_id;
  token = token;
  expires_at = now + settings.refresh_token_expire_days * microseconds_per_day;
}

-- The insertion fails on a token or a key in use, or a user who is not there.
unfoldable pub create_refresh_token :
    Settings → ℕ → ℕ → String → ℕ → Session → Result (String × Session)
create_refresh_token settings now id token user_id s = do
  raise_if
      (is_some (get id s.refresh_tokens)
        || not (is_empty (select (has_token token) s.refresh_tokens))
        || not (is_some (get user_id s.users)))
      integrity_error
  ok (
    token,
    record s {
      refresh_tokens = s.refresh_tokens ++ (id, new_refresh_token settings now token user_id) ∷ [];
    },
  )

-- The foreign key makes the token's user present.
unfoldable pub refresh_access_token : ℕ → String → Session → Result (User × Session)
refresh_access_token now refresh_token s = do
  found ← scalar_one_or_none (select (has_token refresh_token) s.refresh_tokens)
  row ← or_raise found credentials_error
  raise_if (ltb row.1.expires_at now) credentials_error
  u ← or_raise (get row.1.user_id s.users) integrity_error
  ok (u, record s { refresh_tokens = delete row.0 s.refresh_tokens })

-- The route: the old token is consumed, and a new one issued.
unfoldable pub refresh_token :
    Settings → ℕ → ℕ → String → String → Session → Result (User × Session)
refresh_token settings now id new old s = do
  consumed ← refresh_access_token now old s
  issued ← create_refresh_token settings now id new consumed.0.id consumed.1
  ok (consumed.0, issued.1)
