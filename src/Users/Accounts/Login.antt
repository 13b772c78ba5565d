-- ===== src/Users/Accounts/Login.antt =====
-- Registration and login (`UserService.create_user`, `UserService.authenticate_user`).
use fair_drop.Common.{
  ℕ, ◌≡◌, refl, inl, inr, String, none, some, [], ◌∷◌, arith, str_eq_refl, str_eq_iff,
}
use fair_drop.Common.Table.{select}
use fair_drop.Common.Table.{get, IsKeyed}
use fair_drop.Common.Table.Select.{select_sound, select-append}
use fair_drop.Exceptions.{
  ok, err, user_already_exists, Result-cases, scalar_one_or_none, no_row, only_row,
}
use fair_drop.Models.{User}
use fair_drop.Database.{Session}
use fair_drop.Users.Hashing.{Hashing}
use fair_drop.Users.Accounts.{has_email, insert_user, new_user, create_user, authenticate_user}

-- The new user is the only one with the email.
pub create_user-ok :
    (h : Hashing) (id salt : ℕ) (email password : String) (s s' : Session) (u : User)
    → create_user h id salt email password s ≡ ok (u, s')
    → (u ≡ new_user h id salt email password) × (select (has_email email) s'.users ≡ (id, u) ∷ [])
unfolding create_user insert_user
create_user-ok h id salt email password s s' u done =
    elim (Result-cases (scalar_one_or_none (select (has_email email) s.users))) [
      | inr (e, failed) ↦ absurd (ground arith)
      | inl (some row, found) ↦ absurd (ground arith)
      | inl (none, found) ↦
          let v = new_user h id salt email password in
          let only =
            select-append (has_email email) id v s.users
              (no_row (select (has_email email) s.users) found) (str_eq_refl email) in
          (ground arith, ground (arith, only))
    ]

-- Whoever has registered logs in with the same email and password, and is the user who was
-- registered.
pub create_user-login :
    (h : Hashing) (id salt : ℕ) (email password : String) (s s' : Session) (u : User)
    → create_user h id salt email password s ≡ ok (u, s')
    → authenticate_user h email password s' ≡ ok (some u)
unfolding authenticate_user
create_user-login h id salt email password s s' u done =
    let (new, only) = create_user-ok h id salt email password s s' u done in
    rw only (rw new (rw (h.verify-hash salt password) refl))

-- An email that has been registered is refused afterwards, whatever the password.
pub create_user_twice :
    (h : Hashing) (id salt id' salt' : ℕ) (email password password' : String) (s s' : Session)
    (u : User)
    → create_user h id salt email password s ≡ ok (u, s')
    → create_user h id' salt' email password' s' ≡ err user_already_exists
unfolding create_user
create_user_twice h id salt id' salt' email password password' s s' u done =
    rw (create_user-ok h id salt email password s s' u done).1 refl

-- Who authenticates is the one user with the email.
pub authenticate_user-some :
    (h : Hashing) (email password : String) (s : Session) (u : User)
    → IsKeyed s.users
    → authenticate_user h email password s ≡ ok (some u)
    → (i : ℕ) × (select (has_email email) s.users ≡ (i, u) ∷ [])
      × (u.email ≡ email)
      × (get i s.users ≡ some u)
unfolding authenticate_user
authenticate_user-some h email password s u keyed e =
    elim (Result-cases (scalar_one_or_none (select (has_email email) s.users))) [
      | inr (e', failed) ↦ absurd (ground arith)
      | inl (none, found) ↦ absurd (ground arith)
      | inl (some (i, v), found) ↦
          let rows = only_row (select (has_email email) s.users) (i, v) found in
          let row = (rw rows at (select_sound (has_email email) s.users keyed)).0 in
          let same : v ≡ u = ground arith in
          (i, rw (← same) rows, rw (← same) ((str_eq_iff v.email email).0 row.1), rw (← same) row.0)
    ]
