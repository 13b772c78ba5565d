-- ===== src/Users/Access/Current.antt =====
-- Whom a request with an access token comes from.
use fair_drop.Common.{
  ℕ, ◌+◌, ◌*◌, ◌≤◌, ◌≡◌, ◌∙◌, ap, ◌⊎◌, refl, inl, inr, Bool, String, Option, none, some, arith,
  Bool-cases, str_eq,
}
use fair_drop.Common.Table.{get, select, IsKeyed}
use fair_drop.Exceptions.{Result, ok, Result-cases}
use fair_drop.Models.{User}
use fair_drop.Database.{Session}
use fair_drop.Config.{Settings, microseconds_per_minute}
use fair_drop.Users.Hashing.{Hashing}
use fair_drop.Users.Accounts.{has_email, authenticate_user}
use fair_drop.Users.Accounts.Login.{authenticate_user-some}
use fair_drop.Users.Tokens.{create_refresh_token}
use fair_drop.Users.Access.{
  Claims, Jwt, Token, create_access_token, get_current_user, get_current_user_flexible, login,
  or_session, session_user,
}

-- Where the keys of the users are distinct, the access token that a login returns is accepted until
-- its last second, as a token of the user whose email and password were given.
pub get_current_user-login :
    (h : Hashing) (jwt : Jwt) (settings : Settings) (within_limit : Bool) (now id : ℕ)
    (token email password : String) (s s' : Session) (t : Token) (later : ℕ)
    → IsKeyed s.users
    → login h jwt settings within_limit now id token email password s ≡ ok (t, s')
    → later + 1000000 ≤ now + settings.access_token_expire_minutes * microseconds_per_minute
    → (u : User) × (authenticate_user h email password s ≡ ok (some u))
      × (get_current_user jwt settings later t.access_token s' ≡ ok u)
unfolding login create_refresh_token create_access_token get_current_user
get_current_user-login h jwt settings within_limit now id token email password s s' t later keyed e
      soon =
    elim (Result-cases (authenticate_user h email password s)) [
      | inr (e', failed) ↦ absurd (ground arith)
      | inl (none, found) ↦ absurd (ground arith)
      | inl (some u, found) ↦
          let (i, rows, named, at) = authenticate_user-some h email password s u keyed found in
          let c : Claims = record {
            sub = some u.email;
            exp = now + settings.access_token_expire_minutes * microseconds_per_minute;
          } in
          let (d, decoded, sub) =
            jwt.decode-encode later c settings.secret_key settings.jwt_algorithm soon in
          let users : s'.users ≡ s.users = ground arith in
          let access : t.access_token ≡ jwt.encode c settings.secret_key settings.jwt_algorithm =
            ground arith in
          let mine = ap (λ x. select (has_email x) s.users) named ∙ rows in
          (u, found, rw access (rw decoded (rw sub (rw users (rw mine refl)))))
    ]

session_user-ok :
    (session_token : Option ℕ) (s : Session) (u : User)
    → session_user session_token s ≡ ok u
    → (i : ℕ) × (session_token ≡ some i) × (get i s.users ≡ some u)
session_user-ok none s u e = cc
session_user-ok (some i) s u e = (i, refl, ground arith)

or_session-ok :
    (answer : Result User) (session_token : Option ℕ) (s : Session) (u : User)
    → or_session answer session_token s ≡ ok u
    → (answer ≡ ok u) ⊎ (session_user session_token s ≡ ok u)
or_session-ok answer session_token s u e = ground arith

-- A request is taken for a user's only with a token that decodes to the user's email, or with the
-- user's key in its browser session.
pub get_current_user_flexible_sound :
    (jwt : Jwt) (settings : Settings) (now : ℕ) (token : Option String) (session_token : Option ℕ)
    (s : Session) (u : User)
    → get_current_user_flexible jwt settings now token session_token s ≡ ok u
    → ((text : String) × (token ≡ some text) × (get_current_user jwt settings now text s ≡ ok u))
      ⊎ ((i : ℕ) × (session_token ≡ some i) × (get i s.users ≡ some u))
unfolding get_current_user_flexible
get_current_user_flexible_sound jwt settings now none none s u e = cc
get_current_user_flexible_sound jwt settings now none (some i) s u e = inr (i, refl, ground arith)
get_current_user_flexible_sound jwt settings now (some text) session_token s u e =
    elim (Bool-cases (str_eq text "")) [
      | inl empty ↦ inr (session_user-ok session_token s u (ground arith))
      | inr there ↦
          elim (or_session-ok (get_current_user jwt settings now text s) session_token s u
            (ground arith)) [
              | inl current ↦ inl (text, refl, current)
              | inr session ↦ inr (session_user-ok session_token s u session)
            ]
    ]
