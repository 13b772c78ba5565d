-- ===== src/Examples/Settlements.antt =====
-- A payment of the sample shop that overlaps with a cancellation.
use fair_drop.Common.{ℕ, ◌≡◌, ◌≢◌, arith, refl, some, List, [], ◌∷◌, ◌==◌, if◌then◌else◌}
use fair_drop.Common.Table.{get, put, select}
use fair_drop.Exceptions.{ok}
use fair_drop.Models.{Order}
use fair_drop.AuditLog.{log_object_change, dict_get}
use fair_drop.Json.{json_eq}
use fair_drop.Security.{check_ownership}
use fair_drop.Inventory.Internal.{mark_reservation_by_order_as_completed, reservation_by_order}
use fair_drop.Orders.Service.{
  confirm_order_payment, cancel_order, get_order, save_order, log_order_change, order_response,
}
use fair_drop.Idempotency.{fresh, HttpRequest}
use fair_drop.Idempotency.Overlap.{
  waiting, answered, Event, reads, handles, stores, World, read_cache, perform, perform_all,
}
use fair_drop.Routes.Settlements.{SettlementRequest, handler, settlements_overlap}
use fair_drop.Examples.Sample.{shop, shop-IsConsistent, buyer, placed_order}
use fair_drop.Examples.Requests.{plain_cache, empty_cache, constant_codec, pay, paid_order}

abbrev cancel : HttpRequest
cancel = record { method = "POST"; path = "/orders/30/cancel"; idempotency_key = some "c30" }

abbrev calls : ℕ → SettlementRequest
calls i = record {
  pays = i == 0;
  order_id = 30;
  user = buyer;
  http = if i == 0 then pay else cancel;
}

abbrev start : World plain_cache (constant_codec Order) 60 (λ i. (calls i).http) (handler calls)
start = record { store = empty_cache; state = shop; stages = λ i. waiting }

abbrev overlapping : List Event
overlapping = reads 1 8 ∷ reads 0 9 ∷ handles 0 10 ∷ handles 1 11 ∷ stores 1 12 ∷ stores 0 13 ∷ []

abbrev after : World plain_cache (constant_codec Order) 60 (λ i. (calls i).http) (handler calls)
after =
    perform_all plain_cache (constant_codec Order) 60 (λ i. (calls i).http) (handler calls)
      overlapping start

payment_fresh : after.stages 0 ≡ answered (ok (fresh paid_order))
unfolding perform_all perform read_cache select get put confirm_order_payment cancel_order get_order
    check_ownership mark_reservation_by_order_as_completed reservation_by_order save_order
    log_order_change log_object_change order_response json_eq dict_get
payment_fresh = refl

settlements_overlap_example : after.stages 1 ≢ answered (ok (fresh placed_order))
settlements_overlap_example =
    settlements_overlap calls plain_cache (constant_codec Order) 60 overlapping start 0 1 paid_order
      placed_order (λ k. refl) shop-IsConsistent (ground arith) refl payment_fresh
