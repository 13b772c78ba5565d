-- ===== src/Routes/Orders.antt =====
-- The routes of app/services/orders/routes.py. The raw key of a new order and of its item are
-- arguments, as is the time.
use fair_drop.Common.{ℕ, String, some}
use fair_drop.Exceptions.{Result, ok, err, ◌>>=◌}
use fair_drop.Config.{Settings}
use fair_drop.Models.{User, Order}
use fair_drop.Database.{Session}
use fair_drop.Users.Access.{Jwt, get_current_user}
use fair_drop.Idempotency.{Cache, HttpRequest, Reply, Codec, idempotent}
use fair_drop.Orders.Service.{
  OrderCreate, get_order_for_details, create_order_from_reservation, confirm_order_payment,
  cancel_order,
}
use fair_drop.Routes.{closed}

unfoldable pub get_order_details_endpoint :
    Jwt → Settings → ℕ → String → ℕ → Session → Result (Order × Session)
get_order_details_endpoint jwt settings now token order_id s = do
  current_user ← get_current_user jwt settings now token s
  get_order_for_details order_id current_user s

module _ (cache : Cache) (codec : Codec Order) (jwt : Jwt) (settings : Settings) where
  -- The decorator `idempotent`, on a function of a user and a session.
  unfoldable pub idempotent_endpoint :
      (User → Session → Result (Order × Session))
      → ℕ
      → String
      → HttpRequest
      → cache.Store
      → Session
      → Result (Reply Order) × cache.Store × Session
  idempotent_endpoint func now token request store s =
      elim (get_current_user jwt settings now token s) [
        | err e ↦ (err e, store, s)
        | ok current_user ↦
            idempotent cache codec now settings.idempotent_key_lifetime_sec (some request)
              (λ t. closed t (func current_user t)) store s
      ]

  unfoldable pub create_order_endpoint :
      ℕ
      → ℕ
      → OrderCreate
      → ℕ
      → String
      → HttpRequest
      → cache.Store
      → Session
      → Result (Reply Order) × cache.Store × Session
  create_order_endpoint id item_id order_data now =
      idempotent_endpoint (λ u. create_order_from_reservation now id item_id u order_data) now

  unfoldable pub confirm_order_payment_endpoint :
      ℕ
      → ℕ
      → String
      → HttpRequest
      → cache.Store
      → Session
      → Result (Reply Order) × cache.Store × Session
  confirm_order_payment_endpoint order_id = idempotent_endpoint (confirm_order_payment order_id)

  unfoldable pub cancel_order_endpoint :
      ℕ
      → ℕ
      → String
      → HttpRequest
      → cache.Store
      → Session
      → Result (Reply Order) × cache.Store × Session
  cancel_order_endpoint order_id = idempotent_endpoint (cancel_order order_id)
