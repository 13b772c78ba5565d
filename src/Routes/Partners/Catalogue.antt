-- ===== src/Routes/Partners/Catalogue.antt =====
-- What partners see of orders: their own.
use fair_drop.Common.{
  ℕ, ◌≡◌, ◌≢◌, refl, inl, inr, String, Option, none, some, [], ◌∷◌, arith, ◌==◌, Bool-cases,
}
use fair_drop.Common.Table.{Table, get, IsKeyed}
use fair_drop.Exceptions.{ok, err, no_such_resource}
use fair_drop.Models.{User, Order}
use fair_drop.Database.{Session}
use fair_drop.Users.Hashing.{Hashing}
use fair_drop.Users.Access.{get_api_key_user}
use fair_drop.Users.ApiKeys.{authenticate_api_key_b2b_partner}
use fair_drop.Routes.Partners.{order_rows, get_external_order_status, fetch_order_status}

-- The rows with a key that another user owns.
no_own_rows :
    (user_id order_id : ℕ) (t : Table Order)
    → IsKeyed t
    → ((o : Order) → get order_id t ≡ some o → o.user_id ≢ user_id)
    → order_rows user_id order_id t ≡ []
unfolding order_rows get
no_own_rows user_id order_id [] keyed others = refl
no_own_rows user_id order_id ((i, o) ∷ t) keyed others =
    let rest = no_own_rows user_id order_id t keyed.1 (λ o' found.
      others o' (elim (Bool-cases (i == order_id)) [
        | inl here ↦ absurd (ground (arith, keyed.0))
        | inr other ↦ rw other found
      ])) in
    elim (Bool-cases (i == order_id)) [
      | inl here ↦ elim (Bool-cases (o.user_id == user_id)) [
        | inl own ↦ absurd (others o (rw here refl) (ground arith))
        | inr foreign ↦ rw here (rw foreign rest)
      ]
      | inr other ↦ rw other rest
    ]

-- The use of an API key leaves the orders alone.
get_api_key_user-orders :
    (h : Hashing) (now : ℕ) (api_key : Option String) (s : Session)
    → (get_api_key_user h now api_key s).1.orders ≡ s.orders
unfolding get_api_key_user authenticate_api_key_b2b_partner
get_api_key_user-orders h now none s = refl
get_api_key_user-orders h now (some key) s = ground arith

-- A partner does not learn of another's order: the answer about an order that is not the partner's
-- is the answer about an order that is not there.
pub fetch_order_status-hides :
    (h : Hashing) (now : ℕ) (api_key : Option String) (order_id : ℕ) (s : Session) (u : User)
    → IsKeyed s.orders
    → (get_api_key_user h now api_key s).0 ≡ ok u
    → ((o : Order) → get order_id s.orders ≡ some o → o.user_id ≢ u.id)
    → (fetch_order_status h now api_key order_id s).0 ≡ err no_such_resource
unfolding fetch_order_status get_external_order_status
fetch_order_status-hides h now api_key order_id s u keyed known others = rw known (
    rw (get_api_key_user-orders h now api_key s)
      (rw (no_own_rows u.id order_id s.orders keyed others) refl))
