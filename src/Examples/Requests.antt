-- ===== src/Examples/Requests.antt =====
-- Requests to the API of the sample shop.
use fair_drop.Common.{
  ℕ, ◌+◌, ◌*◌, ◌≡◌, ◌≢◌, refl, ap, String, Option, none, some, arith, ltb, str_eq, ◌==◌,
  if◌then◌else◌,
}
use fair_drop.Common.Table.{get, put, select}
use fair_drop.Config.{microseconds_per_second}
use fair_drop.Exceptions.{Result, ok}
use fair_drop.Models.{Reservation, Order, OrderStatus}
use fair_drop.Database.{Session, insert_reservation, update_product_row, check_product}
use fair_drop.Inventory.Schemas.{ReservationCreate}
use fair_drop.Inventory.Reserve.{reserve_items}
use fair_drop.RateLimit.{check_rate_limit, rate_limit_script}
use fair_drop.Idempotency.{Cache, HttpRequest, Reply, fresh, Codec, idempotent}
use fair_drop.Users.Access.{get_current_user}
use fair_drop.Routes.Inventory.{reservation_data}
use fair_drop.Security.{check_ownership}
use fair_drop.Orders.Service.{
  confirm_order_payment, get_order, save_order, log_order_change, order_response,
}
use fair_drop.AuditLog.{log_object_change, dict_get}
use fair_drop.Json.{json_eq}
use fair_drop.Inventory.Internal.{mark_reservation_by_order_as_completed, reservation_by_order}
use fair_drop.Routes.Orders.{idempotent_endpoint, confirm_order_payment_endpoint}
use fair_drop.Routes.Repeated.{IsNotFresh, reservation_data_once}
use fair_drop.Examples.Sample.{settings, shop, placed_order}
use fair_drop.Examples.Access.{plain_tokens}
use fair_drop.Examples.Limits.{plain_counters, no_counters}

abbrev pub plain_cache : Cache
plain_cache = record {
  Store = ℕ → String → Option String;
  get = λ now k s. s now k;
  setex = λ now k seconds v s later j.
      if str_eq k j
      then (if ltb later (now + seconds * microseconds_per_second) then some v else none)
      else s later j;
  get-setex = λ later j now k seconds v s after. refl;
}

abbrev pub empty_cache : plain_cache.Store
empty_cache = λ later k. none

abbrev pub braces : String
braces = "{}"

pub braces-ne-empty : braces ≢ ""
braces-ne-empty e = let f = ap (λ x. str_eq x "") e in cc

abbrev pub constant_codec : (R : Type 0) → Codec R
constant_codec R = record {
  dump = λ r. braces;
  reload = λ text. text;
  dump-ne-empty = λ r. braces-ne-empty;
}

abbrev pub id_text : ℕ → String
id_text n = if n == 1 then "one" else "other"

abbrev pub two_lamps : ReservationCreate
two_lamps = record { product_id = 10; quantity = 2 }

abbrev pub post : HttpRequest
post = record { method = "POST"; path = "/inventory/reserve"; idempotency_key = some "k22" }

abbrev first_run : Result (Reply Reservation) × plain_cache.Store × (plain_counters.Store × Session)
first_run =
    reservation_data plain_counters id_text settings plain_cache (constant_codec Reservation)
      plain_tokens 10 22 "sbuyer@example.com" post "k22" two_lamps empty_cache (no_counters, shop)

abbrev pub new_row : Reservation
new_row = record {
  qty_reserved = 2;
  user_id = 1;
  product_id = 10;
  status = OrderStatus.pending;
  idempotency_key = "k22";
  order_id = none;
  expires_at = 900000010;
}

first_answered : first_run ≡ (ok (fresh new_row), first_run.1, (first_run.2.0, first_run.2.1))
unfolding reservation_data get_current_user select get put idempotent check_rate_limit
    rate_limit_script reserve_items insert_reservation update_product_row check_product
first_answered = refl

reservation_data_once_example :
    IsNotFresh
      (reservation_data plain_counters id_text settings plain_cache
        (constant_codec Reservation)
        plain_tokens
        20
        23
        "svendor@example.com"
        post
        "k22"
        two_lamps
        first_run.1
        (no_counters, first_run.2.1)).0
    × ((reservation_data plain_counters id_text settings plain_cache
          (constant_codec Reservation)
          plain_tokens
          20
          23
          "svendor@example.com"
          post
          "k22"
          two_lamps
          first_run.1
          (no_counters, first_run.2.1)).2.1
        ≡ first_run.2.1)
reservation_data_once_example =
    reservation_data_once plain_counters id_text settings plain_cache (constant_codec Reservation)
      plain_tokens 10 22 "sbuyer@example.com" post "k22" two_lamps empty_cache first_run.1
      no_counters first_run.2.0 shop first_run.2.1 new_row 20 23 "svendor@example.com" two_lamps
      no_counters first_answered (omega arith)

abbrev pub pay : HttpRequest
pay = record { method = "POST"; path = "/orders/30/pay"; idempotency_key = some "p30" }

abbrev payment : Result (Reply Order) × plain_cache.Store × Session
payment =
    confirm_order_payment_endpoint plain_cache (constant_codec Order) plain_tokens settings 30 10
      "sbuyer@example.com" pay empty_cache shop

abbrev pub paid_order : Order
paid_order = record placed_order { status = OrderStatus.paid }

payment_answered : payment ≡ (ok (fresh paid_order), payment.1, payment.2)
unfolding confirm_order_payment_endpoint idempotent_endpoint get_current_user select get put
    idempotent confirm_order_payment get_order check_ownership
    mark_reservation_by_order_as_completed reservation_by_order save_order log_order_change
    log_object_change order_response json_eq dict_get
payment_answered = refl
