-- ===== src/Expiry/Loaded.antt =====
-- app/services/inventory/tasks.py: one turn of the sweep's loop, on the session that the turns
-- share. app/worker.py makes that session with `expire_on_commit=False`, and `SELECT ... FOR UPDATE`
-- does not read a loaded object anew, so a product that an earlier turn has loaded keeps the quantity
-- that it had then.
use fair_drop.Common.{
  ap, ◌∙◌, ◌+◌, ℕ, ◌≡◌, refl, inl, inr, true, Option, none, some, arith, if◌then◌else◌,
  Option-cases, Bool-cases,
}
use fair_drop.Common.Table.{get, put}
use fair_drop.Common.Table.Laws.{get-put}
use fair_drop.Exceptions.{Result, ok, Result-cases}
use fair_drop.Models.{Product, Reservation, is_pending}
use fair_drop.Database.{Session, is_some}
use fair_drop.Stock.{stock, Conserves}
use fair_drop.Stock.Conservation.{Conserves-refl}
use fair_drop.Lifecycle.{IsConsistent}
use fair_drop.Lifecycle.Steps.{IsSafe}
use fair_drop.Orders.Changes.{Changes, none_yet}
use fair_drop.Expiry.{release_row, release_reservation, committed}
use fair_drop.Expiry.Release.{release_row-IsSafe}
use fair_drop.Expiry.Sweep.{IsSafe-refl, IsSafe-trans, is_pending-eq}
use fair_drop.Expiry.Cancelled.{release-Changes}

-- The quantity of a product that the session sees: what it has loaded, or else the row's.
abbrev pub seen : Option ℕ → Product → ℕ
seen none p = p.qty_available
seen (some quantity) p = quantity

-- The tables as the session sees them, the product's quantity being the loaded one.
abbrev pub as_loaded : Option ℕ → ℕ → Session → Session
as_loaded none id s = s
as_loaded (some quantity) id s = elim (get id s.products) [
  | none ↦ s
  | some p ↦ record s { products = put id (record p { qty_available = quantity }) s.products }
]

-- The body of `begin_nested`, with what the session has loaded of the reservation's product.
unfoldable pub release_loaded : Option ℕ → ℕ → Session → Result Session
release_loaded loaded id s = elim (get id s.reservations) [
  | none ↦ ok s
  | some r ↦
      if is_pending r.status then release_row id r (as_loaded loaded r.product_id s) else ok s
]

-- The turn: the transaction commits, or is rolled back.
pub release_turn : Option ℕ → ℕ → Session → Session
release_turn loaded id s = committed s (release_loaded loaded id s)

-- The session sees the product of the reservation as the table has it.
abbrev pub IsCurrent : Option ℕ → ℕ → Session → Type 0
IsCurrent loaded id s =
    (r : Reservation) (p : Product)
    → get id s.reservations ≡ some r
    → get r.product_id s.products ≡ some p
    → seen loaded p ≡ p.qty_available

as_loaded-reservations :
    (loaded : Option ℕ) (id : ℕ) (s : Session)
    → (as_loaded loaded id s).reservations ≡ s.reservations
as_loaded-reservations none id s = refl
as_loaded-reservations (some quantity) id s = ground arith

as_loaded-orders :
    (loaded : Option ℕ) (id : ℕ) (s : Session) → (as_loaded loaded id s).orders ≡ s.orders
as_loaded-orders none id s = refl
as_loaded-orders (some quantity) id s = ground arith

as_loaded-IsConsistent :
    (loaded : Option ℕ) (id : ℕ) (s : Session)
    → IsConsistent s
    → IsConsistent (as_loaded loaded id s)
as_loaded-IsConsistent loaded id s c =
    rw (as_loaded-reservations loaded id s, as_loaded-orders loaded id s) c

as_loaded-Conserves :
    (loaded : Option ℕ) (id : ℕ) (s : Session)
    → ((p : Product) → get id s.products ≡ some p → seen loaded p ≡ p.qty_available)
    → Conserves s (as_loaded loaded id s)
as_loaded-Conserves none id s current = Conserves-refl s
as_loaded-Conserves (some quantity) id s current = elim (Option-cases (get id s.products)) [
  | inl missing ↦ record { stays = λ j h. ground arith; same = λ j h. ground arith }
  | inr (p, known) ↦
      let same : quantity ≡ p.qty_available = current p known in
      let p' : Product = record p { qty_available = quantity } in
      record {
        stays = λ j h. ground (arith, get-put j id p' p s.products);
        same = λ j h. ground (arith, get-put j id p' p s.products);
      }
]

-- The units of a product as the session sees them.
as_loaded-stock :
    (loaded : Option ℕ) (id : ℕ) (s : Session) (p : Product)
    → get id s.products ≡ some p
    → (is_some (get id (as_loaded loaded id s).products) ≡ true)
      × (stock id (as_loaded loaded id s) + p.qty_available ≡ stock id s + seen loaded p)
as_loaded-stock none id s p known = (rw known refl, refl)
as_loaded-stock (some quantity) id s p known =
    let p' : Product = record p { qty_available = quantity } in
    let own = get-put id id p' p s.products known in (ground (arith, own), ground (arith, own))

module _ (loaded : Option ℕ) (i : ℕ) (s : Session) (c : IsConsistent s) where
  -- What holds of a session that stays and of one that a release goes through in holds of the turn.
  turn_cases {ℓ} :
      (P : Session → Type ℓ)
      → P s
      → ((r : Reservation) (s' : Session)
          → get i s.reservations ≡ some r
          → is_pending r.status ≡ true
          → release_row i r (as_loaded loaded r.product_id s) ≡ ok s'
          → P s')
      → P (release_turn loaded i s)
  unfolding release_turn release_loaded committed
  turn_cases P stays goes = elim (Option-cases (get i s.reservations)) [
    | inl missing ↦ rw (release_turn, release_loaded, missing) stays
    | inr (r, found) ↦ elim (Bool-cases (is_pending r.status)) [
      | inr over ↦ rw (release_turn, release_loaded, found, over) stays
      | inl waiting ↦ elim (Result-cases (release_row i r (as_loaded loaded r.product_id s))) [
        | inr (e, failed) ↦ rw (release_turn, release_loaded, found, waiting, failed) stays
        | inl (s', done) ↦
            rw (release_turn, release_loaded, found, waiting, done) (goes r s' found waiting done)
      ]
    ]
  ]

  released :
      (r : Reservation) (s' : Session)
      → get i s.reservations ≡ some r
      → is_pending r.status ≡ true
      → release_row i r (as_loaded loaded r.product_id s) ≡ ok s'
      → IsSafe (as_loaded loaded r.product_id s) s'
  released r s' found waiting done =
      release_row-IsSafe i r (as_loaded loaded r.product_id s)
        (rw (as_loaded-reservations loaded r.product_id s) found) (is_pending-eq r.status waiting)
        (as_loaded-IsConsistent loaded r.product_id s c) s' done

  -- Whatever the session has loaded, reservations and orders stay consistent.
  pub release_turn-IsConsistent : IsConsistent (release_turn loaded i s)
  release_turn-IsConsistent =
      turn_cases IsConsistent c
        (λ r s' found waiting done. (released r s' found waiting done).consistent)

  pub release_turn-Changes : Changes s.orders (release_turn loaded i s).orders
  release_turn-Changes =
      turn_cases (λ t. Changes s.orders t.orders) none_yet
        (λ r s' found waiting done. rw (as_loaded-orders loaded r.product_id s) at (
          release-Changes i r (as_loaded loaded r.product_id s) s'
            (as_loaded-IsConsistent loaded r.product_id s c)
            (rw (as_loaded-reservations loaded r.product_id s) found)
            (is_pending-eq r.status waiting) done))

  pub release_turn-IsSafe : IsCurrent loaded i s → IsSafe s (release_turn loaded i s)
  release_turn-IsSafe current = turn_cases (IsSafe s) (IsSafe-refl s c) (λ r s' found waiting done.
      IsSafe-trans s (as_loaded loaded r.product_id s) s'
        (record {
          consistent = as_loaded-IsConsistent loaded r.product_id s c;
          conserves =
              as_loaded-Conserves loaded r.product_id s (λ p known. current r p found known);
        })
        (released r s' found waiting done))

  -- A release by a session that has loaded the product makes the units by which the loaded quantity
  -- exceeds the row's, or loses those that it lacks: units on sale and held, with the row's quantity,
  -- are as many after it as they were before, with the loaded quantity.
  pub release_loaded-stock :
      (r : Reservation) (p : Product) (s' : Session)
      → get i s.reservations ≡ some r
      → is_pending r.status ≡ true
      → get r.product_id s.products ≡ some p
      → release_loaded loaded i s ≡ ok s'
      → stock r.product_id s' + p.qty_available ≡ stock r.product_id s + seen loaded p
  unfolding release_loaded
  release_loaded-stock r p s' found waiting known h =
      let done : release_row i r (as_loaded loaded r.product_id s) ≡ ok s' =
        rw (release_loaded, found, waiting) at h in
      let (there, units) = as_loaded-stock loaded r.product_id s p known in
      let same = (released r s' found waiting done).conserves.same r.product_id there in
      ap (λ n. n + p.qty_available) same ∙ units

-- Where nothing is loaded, the turn is that of the sweep with nothing in between.
pub release_turn-fresh :
    (i : ℕ) (s : Session) → release_turn none i s ≡ committed s (release_reservation i s)
unfolding release_turn release_loaded release_reservation
release_turn-fresh i s = refl
