-- ===== src/Routes/Users/Keys.antt =====
-- The API keys of a partner, as the routes make, list and delete them.
use fair_drop.Common.{
  ℕ, ◌≡◌, refl, ap, ◌∙◌, inl, inr, Bool, true, String, none, some, List, [], ◌∷◌, ◌++◌, arith, ◌==◌,
  ==_refl, Bool-cases,
}
use fair_drop.Common.Table.{Table, get, select, delete}
use fair_drop.Common.Table.Laws.{get-append}
use fair_drop.Exceptions.{ok, Result-cases}
use fair_drop.Config.{Settings}
use fair_drop.Models.{ApiKey}
use fair_drop.Database.{Session}
use fair_drop.Security.{RoleChecker}
use fair_drop.Users.Hashing.{Hashing}
use fair_drop.Users.Access.{Jwt, get_current_user}
use fair_drop.Users.ApiKeys.{new_api_key, create_api_key_b2b_partner, delete_api_key_b2b_partner}
use fair_drop.Routes.{checked_user}
use fair_drop.Routes.Users.{
  b2b_partner_dep, ApiKeyRead, api_key_read, api_key_reads, ApiKeyWithSecret, create_api_key_route,
  get_api_keys_b2b_partners, delete_api_key_route,
}

reads-append :
    (p : ApiKey → Bool) (t : Table ApiKey) (id : ℕ) (k : ApiKey)
    → p k ≡ true
    → api_key_reads (select p (t ++ (id, k) ∷ []))
      ≡ api_key_reads (select p t) ++ api_key_reads ((id, k) ∷ [])
unfolding api_key_reads select
reads-append p [] id k hit = rw hit refl
reads-append p ((i, a) ∷ t) id k hit = elim (Bool-cases (p a)) [
  | inl first ↦ rw first (ap (λ r. api_key_read i a ∷ r) (reads-append p t id k hit))
  | inr miss ↦ rw miss (reads-append p t id k hit)
]

delete-append :
    {V : Type 0} (id : ℕ) (v : V) (t : Table V)
    → get id t ≡ none
    → delete id (t ++ (id, v) ∷ []) ≡ t
unfolding get delete
delete-append id v [] free = ground arith
delete-append id v ((i, w) ∷ t) free = ground (arith, delete-append id v t)

-- Only the users are read.
checked_user-users :
    (jwt : Jwt) (settings : Settings) (c : RoleChecker) (now : ℕ) (token : String) (s s' : Session)
    → s'.users ≡ s.users
    → checked_user jwt settings c now token s' ≡ checked_user jwt settings c now token s
unfolding checked_user get_current_user
checked_user-users jwt settings c now token s s' same = rw same refl

-- A partner's new key is the last of the keys listed, and deleting it restores the database: from a
-- request that has made a key, the list of keys is the former one with that key behind it, and a
-- request of the same partner to delete it succeeds and undoes the creation.
pub create_api_key_route-delete :
    (jwt : Jwt) (settings : Settings) (now : ℕ) (token : String) (h : Hashing) (id salt : ℕ)
    (raw_key name : String) (s s' : Session) (made : ApiKeyWithSecret) (listed : List ApiKeyRead)
    → create_api_key_route jwt settings now token h id salt raw_key name s ≡ ok (made, s')
    → get_api_keys_b2b_partners jwt settings now token s ≡ ok listed
    → (get_api_keys_b2b_partners jwt settings now token s' ≡ ok (listed ++ made.data_read ∷ []))
      × (delete_api_key_route jwt settings now token id s' ≡ ok s)
unfolding create_api_key_route get_api_keys_b2b_partners delete_api_key_route api_key_reads
    create_api_key_b2b_partner delete_api_key_b2b_partner
create_api_key_route-delete jwt settings now token h id salt raw_key name s s' made listed done
      shown =
    elim (Result-cases (checked_user jwt settings b2b_partner_dep now token s)) [
      | inr (e, failed) ↦ absurd (ground arith)
      | inl (u, known) ↦
          let k = new_api_key h salt raw_key u.id name in
          let t : Session = record s { api_keys = s.api_keys ++ (id, k) ∷ [] } in
          let after : s' ≡ t = ground arith in
          let free : get id s.api_keys ≡ none = ground arith in
          let read : made.data_read ≡ api_key_read id k = ground arith in
          let before : listed ≡ api_key_reads (select (λ a. a.user_id == u.id) s.api_keys) =
            ground arith in
          let still = checked_user-users jwt settings b2b_partner_dep now token s t refl ∙ known in
          let found : get id t.api_keys ≡ some k =
            get-append id id k s.api_keys free ∙ rw (==_refl id) refl in
          (
            rw after (
                rw still (
                  rw (reads-append (λ a. a.user_id == u.id) s.api_keys id k (==_refl u.id))
                    (rw before (rw read refl)))),
            rw after (
                rw still
                  (rw found (rw (==_refl u.id) (rw (delete-append id k s.api_keys free) refl)))),
          )
    ]
