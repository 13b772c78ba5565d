-- ===== src/Examples/Overlap.antt =====
-- Two requests of the sample shop that overlap.
use fair_drop.Common.{ℕ, ◌+◌, ◌≡◌, ◌≢◌, arith, refl, List, [], ◌∷◌}
use fair_drop.Common.Table.{get, put, select}
use fair_drop.Exceptions.{ok, err, conflict}
use fair_drop.Models.{Reservation}
use fair_drop.Database.{insert_reservation, update_product_row, check_product}
use fair_drop.Inventory.Reserve.{reserve_items}
use fair_drop.RateLimit.{check_rate_limit, rate_limit_script}
use fair_drop.Idempotency.{fresh}
use fair_drop.Idempotency.Overlap.{
  waiting, answered, Event, reads, handles, stores, World, read_cache, perform, perform_all,
}
use fair_drop.Routes.Overlap.{ReservationRequest, handler, reservations_overlap}
use fair_drop.Examples.Sample.{settings, shop, buyer}
use fair_drop.Examples.Limits.{plain_counters, no_counters}
use fair_drop.Examples.Requests.{
  plain_cache, empty_cache, constant_codec, id_text, two_lamps, post, new_row,
}

abbrev calls : ℕ → ReservationRequest
calls i = record { id = 22 + i; user = buyer; http = post; key = "k22"; wanted = two_lamps }

abbrev Shop : Type 0
Shop =
    World plain_cache (constant_codec Reservation) settings.idempotent_key_lifetime_sec
      (λ i. (calls i).http) (handler plain_counters id_text settings calls)

abbrev start : Shop
start = record { store = empty_cache; state = (no_counters, shop); stages = λ i. waiting }

-- Both find the cache empty before either handler runs.
abbrev overlapping : List Event
overlapping = reads 0 8 ∷ reads 1 9 ∷ handles 0 10 ∷ handles 1 11 ∷ stores 0 12 ∷ stores 1 13 ∷ []

abbrev after : Shop
after =
    perform_all plain_cache (constant_codec Reservation) settings.idempotent_key_lifetime_sec
      (λ i. (calls i).http) (handler plain_counters id_text settings calls) overlapping start

first_fresh : after.stages 0 ≡ answered (ok (fresh new_row))
unfolding perform_all perform read_cache reserve_items check_rate_limit rate_limit_script
    insert_reservation update_product_row check_product get put select
first_fresh = refl

second_conflict : after.stages 1 ≡ answered (err conflict)
unfolding perform_all perform read_cache reserve_items check_rate_limit rate_limit_script
    insert_reservation update_product_row check_product get put select
second_conflict = refl

reservations_overlap_example : after.stages 1 ≢ answered (ok (fresh new_row))
reservations_overlap_example =
    reservations_overlap plain_counters id_text settings calls plain_cache
      (constant_codec Reservation) overlapping start 0 1 new_row new_row (λ k. refl) (ground arith)
      refl first_fresh
