-- ===== src/Users/ApiKeys/Keys.antt =====
-- Which API keys are accepted.
use fair_drop.Common.{
  ℕ, ◌≡◌, refl, inl, inr, Bool, true, String, some, [], ◌∷◌, ◌++◌, arith, Option-cases, Bool-cases,
  str_eq_refl, str_eq_iff, All, take_chars,
}
use fair_drop.Common.Table.{Table, get, put, select, IsKeyed}
use fair_drop.Common.Table.Select.{select_sound, IsRow}
use fair_drop.Exceptions.{ok}
use fair_drop.Models.{ApiKey}
use fair_drop.Database.{Session, is_some}
use fair_drop.Users.Hashing.{Hashing}
use fair_drop.Users.ApiKeys.{
  key_length_prefix, is_candidate, new_api_key, create_api_key_b2b_partner, first_verified,
  authenticate_api_key_b2b_partner,
}

module _ (h : Hashing) (raw_key : String) where
  -- What is found satisfies what all the rows satisfy, and verifies.
  first_verified-ok :
      (t : Table ApiKey) (rows : Table ApiKey) (p : ApiKey → Bool) (i : ℕ) (k : ApiKey)
      → All (IsRow p t) rows
      → first_verified h raw_key rows ≡ some (i, k)
      → (get i t ≡ some k) × (p k ≡ true) × (h.verify raw_key k.hashed_key ≡ true)
  unfolding first_verified
  first_verified-ok t [] p i k all e = cc
  first_verified-ok t ((j, q) ∷ rows) p i k all e =
      elim (Bool-cases (h.verify raw_key q.hashed_key)) [
        | inl hit ↦ ground arith
        | inr miss ↦ first_verified-ok t rows p i k all.1 (ground arith)
      ]

  -- A row that verifies is reached, or one before it.
  first_verified-append :
      (p : ApiKey → Bool) (t : Table ApiKey) (i : ℕ) (k : ApiKey)
      → p k ≡ true
      → h.verify raw_key k.hashed_key ≡ true
      → is_some (first_verified h raw_key (select p (t ++ (i, k) ∷ []))) ≡ true
  unfolding first_verified select
  first_verified-append p [] i k hit good = rw (hit, first_verified, good) refl
  first_verified-append p ((j, q) ∷ t) i k hit good =
      let rest = first_verified-append p t i k hit good in
      elim (Bool-cases (p q)) [
        | inr miss ↦ ground (arith, rest)
        | inl there ↦ elim (Bool-cases (h.verify raw_key q.hashed_key)) [
          | inl first ↦ ground arith
          | inr other ↦ ground (arith, rest)
        ]
      ]

-- A raw key is accepted only where some row of the table is active, has the raw key's prefix and a
-- hash that the raw key verifies against; that row's last use is then recorded, and nothing else
-- is written.
pub authenticate_api_key_sound :
    (h : Hashing) (now : ℕ) (raw_key : String) (s s' : Session) (k' : ApiKey)
    → IsKeyed s.api_keys
    → authenticate_api_key_b2b_partner h now raw_key s ≡ (some k', s')
    → (i : ℕ) × (k : ApiKey) × (get i s.api_keys ≡ some k)
      × (k.is_active ≡ true)
      × (k.key_prefix ≡ take_chars key_length_prefix raw_key)
      × (h.verify raw_key k.hashed_key ≡ true)
      × (k' ≡ record k { last_used_at = some now })
      × (s' ≡ record s { api_keys = put i k' s.api_keys })
unfolding authenticate_api_key_b2b_partner
authenticate_api_key_sound h now raw_key s s' k' keyed e =
    elim (Option-cases (first_verified h raw_key (select (is_candidate raw_key) s.api_keys))) [
      | inl none' ↦ absurd (ground arith)
      | inr ((i, k), found) ↦
          let (row, candidate, good) =
            first_verified-ok h raw_key s.api_keys (select (is_candidate raw_key) s.api_keys)
              (is_candidate raw_key) i k (select_sound (is_candidate raw_key) s.api_keys keyed)
              found in
          let same = (str_eq_iff k.key_prefix (take_chars key_length_prefix raw_key)).0 in
          (i, k, row, ground arith, same (ground arith), good, ground arith, ground arith)
    ]

accepted :
    (h : Hashing) (now : ℕ) (raw_key : String) (s : Session)
    → is_some (first_verified h raw_key (select (is_candidate raw_key) s.api_keys)) ≡ true
    → is_some (authenticate_api_key_b2b_partner h now raw_key s).0 ≡ true
unfolding authenticate_api_key_b2b_partner
accepted h now raw_key s found =
    elim (Option-cases (first_verified h raw_key (select (is_candidate raw_key) s.api_keys))) [
      | inl none' ↦ absurd (ground arith)
      | inr ((i, k), e) ↦ ground arith
    ]

-- A raw key that has been issued is accepted afterwards.
pub create_api_key-accepted :
    (h : Hashing) (now id salt : ℕ) (raw_key : String) (user_id : ℕ) (name raw : String)
    (s s' : Session) (k : ApiKey)
    → create_api_key_b2b_partner h id salt raw_key user_id name s ≡ ok (k, raw, s')
    → is_some (authenticate_api_key_b2b_partner h now raw s').0 ≡ true
unfolding create_api_key_b2b_partner
create_api_key-accepted h now id salt raw_key user_id name raw s s' k done =
    let v = new_api_key h salt raw_key user_id name in
    let found =
      first_verified-append h raw_key (is_candidate raw_key) s.api_keys id v
        (rw (str_eq_refl (take_chars key_length_prefix raw_key)) refl)
        (h.verify-hash salt raw_key) in
    let t : s' ≡ record s { api_keys = s.api_keys ++ (id, v) ∷ [] } = ground arith in
    let r : raw ≡ raw_key = ground arith in
    rw t (rw r (accepted h now raw_key (record s { api_keys = s.api_keys ++ (id, v) ∷ [] }) found))
