-- ===== src/Expiry/Sweep.antt =====
-- The sweep over the expired reservations.
use fair_drop.Common.{ℕ, ◌≡◌, inl, inr, true, [], ◌∷◌, arith, Option-cases, Bool-cases}
use fair_drop.Common.Table.{Table, get}
use fair_drop.Exceptions.{Result-cases}
use fair_drop.Models.{Reservation, OrderStatus, is_pending}
use fair_drop.Database.{Session}
use fair_drop.Stock.Conservation.{Conserves-refl, Conserves-trans}
use fair_drop.Lifecycle.{IsConsistent}
use fair_drop.Lifecycle.Steps.{IsSafe}
use fair_drop.Expiry.{
  release_row, release_reservation, committed, release_each, release_expired_reservations,
}
use fair_drop.Expiry.Release.{release_row-IsSafe}

pub IsSafe-refl : (s : Session) → IsConsistent s → IsSafe s s
IsSafe-refl s c = record { consistent = c; conserves = Conserves-refl s }

pub IsSafe-trans : (s t u : Session) → IsSafe s t → IsSafe t u → IsSafe s u
IsSafe-trans s t u a b = record {
  consistent = b.consistent;
  conserves = Conserves-trans s t u a.conserves b.conserves;
}

pub is_pending-eq : (status : OrderStatus) → is_pending status ≡ true → status ≡ OrderStatus.pending
is_pending-eq status h = ground arith

-- One reservation, whether its release goes through or is rolled back.
pub committed-IsSafe :
    (i : ℕ) (s : Session) → IsConsistent s → IsSafe s (committed s (release_reservation i s))
unfolding committed release_reservation
committed-IsSafe i s c = elim (Option-cases (get i s.reservations)) [
  | inl missing ↦ rw (missing, release_reservation) (IsSafe-refl s c)
  | inr (r, found) ↦ elim (Bool-cases (is_pending r.status)) [
    | inr over ↦ rw (found, release_reservation, over) (IsSafe-refl s c)
    | inl waiting ↦ elim (Result-cases (release_row i r s)) [
      | inr (e, failed) ↦ rw (found, release_reservation, waiting, failed) (IsSafe-refl s c)
      | inl (s', done) ↦
          rw (found, release_reservation, waiting, done)
            (release_row-IsSafe i r s found (is_pending-eq r.status waiting) c s' done)
    ]
  ]
]

release_each-IsSafe :
    (rows : Table Reservation) (s : Session) → IsConsistent s → IsSafe s (release_each rows s)
unfolding release_each
release_each-IsSafe [] s c = IsSafe-refl s c
release_each-IsSafe ((i, _) ∷ rows) s c =
    let one : IsSafe s (committed s (release_reservation i s)) = committed-IsSafe i s c in
    IsSafe-trans s _ _ one (release_each-IsSafe rows _ one.consistent)

-- Whatever the state of the tables, and whichever releases fail, the sweep keeps reservations and
-- orders consistent, loses no product and makes or loses no unit of stock.
pub release_expired_reservations-IsSafe :
    (now : ℕ) (s : Session) → IsConsistent s → IsSafe s (release_expired_reservations now s)
unfolding release_expired_reservations
release_expired_reservations-IsSafe now s c = release_each-IsSafe _ s c
