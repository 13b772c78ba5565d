-- ===== src/Users/Accounts.antt =====
-- `create_user` and `authenticate_user` of `UserService`.
pub mod Login
use fair_drop.Common.{
  ℕ, Bool, true, false, not, ◌||◌, String, Option, none, some, [], ◌∷◌, ◌++◌, str_eq, if◌then◌else◌,
}
use fair_drop.Common.Table.{Table, get, select}
use fair_drop.Exceptions.{
  Error, Result, ok, err, user_already_exists, integrity_error, ◌>>=◌, ◌>>◌, raise_if,
  scalar_one_or_none,
}
use fair_drop.Models.{User, UserRole}
use fair_drop.Database.{Session, is_some, is_empty}
use fair_drop.Users.Hashing.{Hashing}

abbrev pub has_email : String → User → Bool
has_email email u = str_eq u.email email

-- INSERT INTO users: the key and the email are unique.
unfoldable pub insert_user : User → Session → Result Session
insert_user u s = do
  raise_if (is_some (get u.id s.users) || not (is_empty (select (has_email u.email) s.users)))
      integrity_error
  ok (record s { users = s.users ++ (u.id, u) ∷ [] })

module _ (h : Hashing) where
  -- `User(email=…, password_hash=…)` with the columns' defaults.
  abbrev pub new_user : ℕ → ℕ → String → String → User
  new_user id salt email password = record {
    id = id;
    email = email;
    password_hash = h.hash salt password;
    is_active = true;
    is_verified = false;
    role = UserRole.user;
  }

  unfoldable pub create_user : ℕ → ℕ → String → String → Session → Result (User × Session)
  create_user id salt email password s = do
    found ← scalar_one_or_none (select (has_email email) s.users)
    raise_if (is_some found) user_already_exists
    s' ← insert_user (new_user id salt email password) s
    ok (new_user id salt email password, s')

  abbrev pub verified : String → Option (ℕ × User) → Option User
  verified password none = none
  verified password (some (_, u)) = if h.verify password u.password_hash then some u else none

  unfoldable pub authenticate_user : String → String → Session → Result (Option User)
  authenticate_user email password s = do
    found ← scalar_one_or_none (select (has_email email) s.users)
    ok (verified password found)
