-- ===== src/Expiry/Release.antt =====
-- Releasing one reservation: what it does, and that it succeeds.
use fair_drop.Common.{ℕ, ◌≡◌, refl, ap, inl, inr, ◌⊎◌, none, some, arith, Option-cases}
use fair_drop.Common.Table.{get, put}
use fair_drop.Exceptions.{ok, Result-cases}
use fair_drop.Models.{Reservation, Order, OrderStatus}
use fair_drop.Database.{Session}
use fair_drop.Inventory.Internal.{close_reservation}
use fair_drop.Inventory.Internal.Outcome.{restocked, close_reservation-ok}
use fair_drop.Orders.Service.{cancel_order_by_system}
use fair_drop.Stock.Storable.{close_reservation_total}
use fair_drop.Stock.{IsStorable}
use fair_drop.Stock.Conservation.{close-Conserves}
use fair_drop.Lifecycle.{IsConsistent}
use fair_drop.Lifecycle.Links.{put_free-IsLinked, put_pair-IsLinked}
use fair_drop.Lifecycle.Steps.{IsSafe, Conserves-of_eq}
use fair_drop.Expiry.{cancel_order_if, release_row}

abbrev pub expired_row : Reservation → Reservation
expired_row r = record r { status = OrderStatus.expired }

-- The session once the stock is back and the reservation EXPIRED.
abbrev pub closed_session : ℕ → Reservation → Session → Session
closed_session i r s = record s {
  products = restocked r s.products;
  reservations = put i (expired_row r) s.reservations;
}

-- The row of the order that the reservation names, if it names one.
abbrev pub IsCancelling : Reservation → Session → Session → Type 0
IsCancelling r s s' =
    ((r.order_id ≡ none) × (s' ≡ s))
    ⊎ ((order_id : ℕ) × (o : Order) × (r.order_id ≡ some order_id)
        × (get order_id s.orders ≡ some o)
        × (s' ≡ record s {
          orders = put order_id (record o { status = OrderStatus.cancelled }) s.orders;
        }))

cancel_order_if-ok :
    (r : Reservation) (s s' : Session) → cancel_order_if r.order_id s ≡ ok s' → IsCancelling r s s'
unfolding cancel_order_if cancel_order_by_system
cancel_order_if-ok r s s' h = elim (Option-cases r.order_id) [
  | inl free ↦ inl (free, ground arith)
  | inr (order_id, link) ↦ elim (Option-cases (get order_id s.orders)) [
    | inl missing ↦ absurd (ground arith)
    | inr (o, found) ↦ inr (order_id, o, link, found, ground arith)
  ]
]

module _ (i : ℕ) (r : Reservation) (s : Session) (reserved : get i s.reservations ≡ some r)
    (waiting : r.status ≡ OrderStatus.pending) where
  pub release_row-ok :
      (s' : Session) → release_row i r s ≡ ok s' → IsCancelling r (closed_session i r s) s'
  unfolding release_row
  release_row-ok s' h = elim (Result-cases (close_reservation i r OrderStatus.expired s)) [
    | inr (e, failed) ↦ absurd (ground arith)
    | inl (t, closed) ↦
        cancel_order_if-ok r (closed_session i r s) s'
          (ground (arith, close_reservation-ok i r OrderStatus.expired s t closed))
  ]

  module _ (c : IsConsistent s) where
    same_user :
        (order_id : ℕ) (o : Order)
        → r.order_id ≡ some order_id
        → get order_id s.orders ≡ some o
        → o.user_id ≡ r.user_id
    same_user order_id o link found =
        let (p, at, own, fits) = c.linked i r order_id reserved link in ground arith

    released-IsSafe : (s' : Session) → IsCancelling r (closed_session i r s) s' → IsSafe s s'
    released-IsSafe s' (inl (free, same)) = rw same (record {
      consistent =
          put_free-IsLinked s.reservations s.orders c i r (expired_row r) reserved free free;
      conserves = close-Conserves i r OrderStatus.expired s reserved (ground arith) refl;
    })
    released-IsSafe s' (inr (order_id, o, link, found, after)) = rw after (record {
      consistent =
          put_pair-IsLinked s.reservations s.orders c i r (expired_row r) reserved order_id o
            (record o { status = OrderStatus.cancelled }) found link refl refl
            (same_user order_id o link found) refl;
      conserves =
          Conserves-of_eq s (closed_session i r s) _ refl refl
            (close-Conserves i r OrderStatus.expired s reserved (ground arith) refl);
    })

    pub release_row-IsSafe : (s' : Session) → release_row i r s ≡ ok s' → IsSafe s s'
    release_row-IsSafe s' h = released-IsSafe s' (release_row-ok s' h)

    pub release_row_total : IsStorable s → (s' : Session) × (release_row i r s ≡ ok s')
    unfolding release_row cancel_order_if cancel_order_by_system
    release_row_total f = elim (Option-cases r.order_id) [
      | inl free ↦ (
        closed_session i r s,
        ground (arith, close_reservation_total i r OrderStatus.expired s reserved (ground arith) f),
      )
      | inr (order_id, link) ↦
          let (o, found, owner, fits) = c.linked i r order_id reserved link in
          (
            record (closed_session i r s) {
              orders = put order_id (record o { status = OrderStatus.cancelled }) s.orders;
            },
            ground (
              arith,
              close_reservation_total i r OrderStatus.expired s reserved (ground arith) f,
            ),
          )
    ]

    pub release_row-reservations :
        (s' : Session)
        → release_row i r s ≡ ok s'
        → s'.reservations ≡ put i (expired_row r) s.reservations
    release_row-reservations s' h = elim (release_row-ok s' h) [
      | inl (free, same) ↦ ap (λ x. x.reservations) same
      | inr (order_id, o, link, found, after) ↦ ap (λ x. x.reservations) after
    ]

    pub release_row-products :
        (s' : Session) → release_row i r s ≡ ok s' → s'.products ≡ restocked r s.products
    release_row-products s' h = elim (release_row-ok s' h) [
      | inl (free, same) ↦ ap (λ x. x.products) same
      | inr (order_id, o, link, found, after) ↦ ap (λ x. x.products) after
    ]
