-- ===== src/Users/Verification/Roles.antt =====
-- What a request for another role can lead to.
use fair_drop.Common.{
  ℕ, ◌≡◌, ◌≢◌, refl, inl, inr, Bool, true, false, Option, none, some, [], ◌∷◌, ◌++◌, arith,
  Option-cases, Bool-cases, ◌==◌,
}
use fair_drop.Common.Table.{Table, get, select}
use fair_drop.Common.Table.Laws.{get-append, get-put}
use fair_drop.Common.Table.Select.{empty_select}
use fair_drop.Exceptions.{ok, Result-cases, scalar_one_or_none, no_row}
use fair_drop.Json.{Dict}
use fair_drop.Models.{User, UserRole, VerificationRequest, VerificationStatus, is_staff}
use fair_drop.Database.{Session}
use fair_drop.Users.Verification.{
  is_open_of, new_request, create_verification_request, on_model_change,
}

-- A user has at most one open request, and none asks for a staff role.
pub record HasOneOpen (t : Table VerificationRequest) : Type 0 where
  pub one :
      (i : ℕ) (v : VerificationRequest) (j : ℕ) (w : VerificationRequest) (user_id : ℕ)
      → get i t ≡ some v
      → get j t ≡ some w
      → is_open_of user_id v ≡ true
      → is_open_of user_id w ≡ true
      → i ≡ j
  pub no_staff :
      (i : ℕ) (v : VerificationRequest) → get i t ≡ some v → is_staff v.target_role ≡ false

append-HasOneOpen :
    (t : Table VerificationRequest) (id : ℕ) (n : VerificationRequest)
    → get id t ≡ none
    → is_staff n.target_role ≡ false
    → ((j : ℕ) (w : VerificationRequest) (user_id : ℕ)
        → get j t ≡ some w
        → is_open_of user_id n ≡ true
        → is_open_of user_id w ≡ false)
    → HasOneOpen t
    → HasOneOpen (t ++ (id, n) ∷ [])
append-HasOneOpen t id n new role alone c = record {
  one = λ i v j w user_id e f p q.
      let at_i = get-append i id n t new in
      let at_j = get-append j id n t new in
      elim (Bool-cases (id == i)) [
        | inl here ↦ elim (Bool-cases (id == j)) [
          | inl there ↦ ground arith
          | inr away ↦ absurd (ground (arith, alone j w user_id))
        ]
        | inr other ↦ elim (Bool-cases (id == j)) [
          | inl there ↦ absurd (ground (arith, alone i v user_id))
          | inr away ↦ c.one i v j w user_id (ground arith) (ground arith) p q
        ]
      ];
  no_staff = λ i v e.
      let at_i = get-append i id n t new in
      elim (Bool-cases (id == i)) [
        | inl here ↦ ground arith
        | inr other ↦ c.no_staff i v (ground arith)
      ];
}

-- A request that is accepted keeps the table such that every user has at most one open request and
-- none asks for a staff role.
pub create_verification_request-HasOneOpen :
    (now id user_id : ℕ) (role : UserRole) (docs : Option Dict) (s s' : Session)
    (v : VerificationRequest)
    → HasOneOpen s.verification_requests
    → create_verification_request now id user_id role docs s ≡ ok (v, s')
    → HasOneOpen s'.verification_requests
unfolding create_verification_request
create_verification_request-HasOneOpen now id user_id role docs s s' v c h =
    elim (Result-cases (scalar_one_or_none (select (is_open_of user_id) s.verification_requests))) [
      | inr (e, failed) ↦ absurd (ground arith)
      | inl (some row, found) ↦ absurd (ground arith)
      | inl (none, found) ↦
          let n = new_request now user_id role docs in
          let empty = no_row (select (is_open_of user_id) s.verification_requests) found in
          let after : s'.verification_requests ≡ s.verification_requests ++ (id, n) ∷ [] =
            ground arith in
          rw after (
            append-HasOneOpen s.verification_requests id n (ground arith) (ground arith)
              (λ j w u at open'.
                let same : u ≡ user_id = ground arith in
                rw same (empty_select (is_open_of user_id) s.verification_requests j w empty at))
              c)
    ]

-- Where no request asks for a staff role, saving a request of the table in the admin panel makes
-- no one staff: a user who is staff afterwards is as before, and so is every user but the one who
-- asked.
pub on_model_change-no_staff :
    (status : Option VerificationStatus) (i : ℕ) (v : VerificationRequest) (is_created : Bool)
    (s s' : Session) (j : ℕ) (u' : User)
    → HasOneOpen s.verification_requests
    → get i s.verification_requests ≡ some v
    → on_model_change status v is_created s ≡ ok s'
    → get j s'.users ≡ some u'
    → (u : User) × (get j s.users ≡ some u)
      × (is_staff u'.role ≡ true → u' ≡ u)
      × (j ≢ v.user_id → u' ≡ u)
unfolding on_model_change
on_model_change-no_staff none i v is_created s s' j u' c row h found =
    (u', ground arith, (λ e. refl), λ e. refl)
on_model_change-no_staff (some status) i v is_created s s' j u' c row h found =
    elim (Option-cases (get v.user_id s.users)) [
      | inl gone ↦ (u', ground arith, (λ e. refl), λ e. refl)
      | inr (a, known) ↦
          let at_j =
            get-put j v.user_id (record a { role = v.target_role; is_verified = true }) a s.users
              known in
          let role = c.no_staff i v row in
          elim (Bool-cases (v.user_id == j)) [
            | inr other ↦ (u', ground arith, (λ e. refl), λ e. refl)
            | inl same ↦ (a, ground arith, (λ e. ground arith), λ e. absurd (ground arith))
          ]
    ]
