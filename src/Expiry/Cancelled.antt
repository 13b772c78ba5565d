-- ===== src/Expiry/Cancelled.antt =====
-- What the sweep does to the orders.
use fair_drop.Common.{ℕ, ◌≡◌, refl, ap, inl, inr, some, [], ◌∷◌, arith, Bool-cases, Option-cases}
use fair_drop.Common.Table.{Table, get}
use fair_drop.Exceptions.{ok, Result-cases}
use fair_drop.Models.{Reservation, OrderStatus, is_pending}
use fair_drop.Database.{Session}
use fair_drop.Expiry.{
  release_row, release_reservation, committed, release_each, release_expired_reservations,
}
use fair_drop.Expiry.Release.{release_row-ok}
use fair_drop.Expiry.Sweep.{committed-IsSafe, is_pending-eq}
use fair_drop.Lifecycle.{IsConsistent}
use fair_drop.Orders.Changes.{settled, Changes, none_yet, Changes-trans, one_change, same_orders}

-- Releasing a reservation cancels its order, which is pending as the reservation is.
pub release-Changes :
    (i : ℕ) (r : Reservation) (s s' : Session)
    → IsConsistent s
    → get i s.reservations ≡ some r
    → r.status ≡ OrderStatus.pending
    → release_row i r s ≡ ok s'
    → Changes s.orders s'.orders
release-Changes i r s s' c reserved waiting h = elim (release_row-ok i r s reserved waiting s' h) [
  | inl (free, same) ↦ same_orders (ap (λ x. x.orders) same)
  | inr (order_id, o, link, found, after) ↦
      let (p, at, own, fits) = c.linked i r order_id reserved link in
      one_change (
        settled order_id o (record o { status = OrderStatus.cancelled }) found (ground arith)
          (inr refl) (ap (λ x. x.orders) after))
]

committed-Changes :
    (i : ℕ) (s : Session)
    → IsConsistent s
    → Changes s.orders (committed s (release_reservation i s)).orders
unfolding committed release_reservation
committed-Changes i s c = elim (Option-cases (get i s.reservations)) [
  | inl missing ↦ rw (missing, release_reservation) none_yet
  | inr (r, found) ↦ elim (Bool-cases (is_pending r.status)) [
    | inr over ↦ rw (found, release_reservation, over) none_yet
    | inl waiting ↦ elim (Result-cases (release_row i r s)) [
      | inr (e, failed) ↦ rw (found, release_reservation, waiting, failed) none_yet
      | inl (s', done) ↦
          rw (found, release_reservation, waiting, done)
            (release-Changes i r s s' c found (is_pending-eq r.status waiting) done)
    ]
  ]
]

release_each-Changes :
    (rows : Table Reservation) (s : Session)
    → IsConsistent s
    → Changes s.orders (release_each rows s).orders
unfolding release_each
release_each-Changes [] s c = none_yet
release_each-Changes ((i, _) ∷ rows) s c =
    Changes-trans (committed-Changes i s c)
      (release_each-Changes rows _ (committed-IsSafe i s c).consistent)

pub release_expired_reservations-Changes :
    (now : ℕ) (s : Session)
    → IsConsistent s
    → Changes s.orders (release_expired_reservations now s).orders
unfolding release_expired_reservations
release_expired_reservations-Changes now s c = release_each-Changes _ s c
