-- ===== src/Users/ApiKeys.antt =====
-- API keys of B2B partners: `UserService` and `get_b2b_partner_by_api_key` of app/core/security.py.
pub mod Keys
use fair_drop.Common.{
  ℕ, Bool, true, false, not, ◌&&◌, ◌||◌, String, Option, none, some, List, [], ◌∷◌, ◌++◌, ◌==◌,
  str_eq, take_chars, if◌then◌else◌,
}
use fair_drop.Common.Table.{Table, get, put, select, delete}
use fair_drop.Exceptions.{
  Error, Result, ok, err, credentials_error, not_found, integrity_error, ◌>>=◌, ◌>>◌, raise_if,
  or_raise,
}
use fair_drop.Models.{User, UserRole, user_b2b, seller_b2b, ApiKey}
use fair_drop.Database.{Session, is_some}
use fair_drop.Users.Hashing.{Hashing}

abbrev pub key_length_prefix : ℕ
key_length_prefix = 12

-- `UserRole.USER_B2B`, `UserRole.SELLER_B2B`
abbrev pub is_partner : UserRole → Bool
is_partner user_b2b = true
is_partner seller_b2b = true
is_partner _ = false

abbrev pub is_candidate : String → ApiKey → Bool
is_candidate raw_key k = str_eq k.key_prefix (take_chars key_length_prefix raw_key) && k.is_active

module _ (h : Hashing) where
  abbrev pub new_api_key : ℕ → String → ℕ → String → ApiKey
  new_api_key salt raw_key user_id name = record {
    user_id = user_id;
    name = name;
    key_prefix = take_chars key_length_prefix raw_key;
    hashed_key = h.hash salt raw_key;
    is_active = true;
    expires_at = none;
    last_used_at = none;
  }

  -- `raw_key` is what `secrets` draws.
  unfoldable pub create_api_key_b2b_partner :
      ℕ → ℕ → String → ℕ → String → Session → Result (ApiKey × String × Session)
  create_api_key_b2b_partner id salt raw_key user_id name s = do
    raise_if (is_some (get id s.api_keys) || not (is_some (get user_id s.users))) integrity_error
    let k = new_api_key salt raw_key user_id name
    ok (k, raw_key, record s { api_keys = s.api_keys ++ (id, k) ∷ [] })

  -- The loop over the candidates: the first that verifies.
  unfoldable pub first_verified : String → Table ApiKey → Option (ℕ × ApiKey)
  first_verified raw_key [] = none
  first_verified raw_key ((id, k) ∷ rows) =
      if h.verify raw_key k.hashed_key then some (id, k) else first_verified raw_key rows

  unfoldable pub authenticate_api_key_b2b_partner : ℕ → String → Session → Option ApiKey × Session
  authenticate_api_key_b2b_partner now raw_key s =
      elim (first_verified raw_key (select (is_candidate raw_key) s.api_keys)) [
        | none ↦ (none, s)
        | some (id, k) ↦
            let k' = record k { last_used_at = some now } in
            (some k', record s { api_keys = put id k' s.api_keys })
      ]

  abbrev pub partner_of : Option ApiKey → Session → Result User
  partner_of found s = do
    k ← or_raise found credentials_error
    u ← or_raise (get k.user_id s.users) integrity_error
    raise_if (not u.is_active) credentials_error
    raise_if (not (is_partner u.role)) credentials_error
    ok u

  -- The answer, and the session: the key's `last_used_at` is committed before the user is checked.
  unfoldable pub get_b2b_partner_by_api_key : ℕ → Option String → Session → Result User × Session
  get_b2b_partner_by_api_key now none s = (err credentials_error, s)
  get_b2b_partner_by_api_key now (some api_key) s =
      let (found, s') = authenticate_api_key_b2b_partner now api_key s in
      if str_eq api_key "" then (err credentials_error, s) else (partner_of found s', s')

unfoldable pub delete_api_key_b2b_partner : ℕ → ℕ → Session → Result Session
delete_api_key_b2b_partner user_id key_id s = do
  k ← or_raise (get key_id s.api_keys) not_found
  raise_if (not (k.user_id == user_id)) not_found
  ok (record s { api_keys = delete key_id s.api_keys })
