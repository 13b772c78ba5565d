-- ===== src/Expiry/Complete.antt =====
-- The sweep ends exactly the expired reservations.
use fair_drop.Common.{
  ℕ, ◌+◌, ◌≡◌, refl, ap, ◌∙◌, inl, inr, Bool, false, ◌&&◌, ◌||◌, Option, none, some, [], ◌∷◌, arith,
  Option-cases, Bool-cases, ◌==◌, ltb, if◌then◌else◌,
}
use fair_drop.Common.Table.{Table, get, select, IsKeyed}
use fair_drop.Common.Table.Laws.{get-put}
use fair_drop.Models.{Product, Reservation, is_pending}
use fair_drop.Database.{Session}
use fair_drop.Inventory.Internal.Outcome.{restocked}
use fair_drop.Stock.{IsStorable, Conserves}
use fair_drop.Lifecycle.{IsConsistent}
use fair_drop.Expiry.{
  release_reservation, committed, release_each, is_expired, release_expired_reservations,
}
use fair_drop.Expiry.Release.{
  expired_row, release_row-IsSafe, release_row_total, release_row-reservations,
  release_row-products,
}
use fair_drop.Expiry.Sweep.{is_pending-eq}

abbrev pub map_row : (Reservation → Reservation) → Option Reservation → Option Reservation
map_row f none = none
map_row f (some r) = some (f r)

-- A pending reservation that is chosen ends.
abbrev pub end_if : Bool → Reservation → Reservation
end_if chosen r = if chosen && is_pending r.status then expired_row r else r

price_restocked :
    (r : Reservation) (products : Table Product) (id : ℕ) (p' : Product)
    → get id (restocked r products) ≡ some p'
    → (p : Product) × (get id products ≡ some p) × (p'.price ≡ p.price)
price_restocked r products id p' h = elim (Option-cases (get r.product_id products)) [
  | inl gone ↦ (p', ground arith, refl)
  | inr (p, known) ↦ elim (Bool-cases (r.product_id == id)) [
    | inl same ↦ (
      p,
      ground arith,
      ground (
        arith,
        get-put id r.product_id (record p { qty_available = p.qty_available + r.qty_reserved }) p
            products,
      ),
    )
    | inr other ↦ (
      p',
      ground (
        arith,
        get-put id r.product_id (record p { qty_available = p.qty_available + r.qty_reserved }) p
            products,
      ),
      refl,
    )
  ]
]

restocked-IsStorable :
    (r : Reservation) (s s' : Session)
    → Conserves s s'
    → s'.products ≡ restocked r s.products
    → IsStorable s
    → IsStorable s'
restocked-IsStorable r s s' k after f = record {
  fits = λ id p' found.
      let (p, known, price) = price_restocked r s.products id p' (rw after at found) in
      let (units, low, high) = f.fits id p known in
      (rw (k.same id (rw known refl)) units, rw price low, rw price high);
}

-- A release that goes through.
pub record IsRelease (i : ℕ) (s s' : Session) : Type 0 where
  pub consistent : IsConsistent s'
  pub storable : IsStorable s'
  pub rows : (j : ℕ) → get j s'.reservations ≡ map_row (end_if (i == j)) (get j s.reservations)

-- Nothing to release.
unchanged-IsRelease :
    (i : ℕ) (s : Session)
    → IsConsistent s
    → IsStorable s
    → ((r : Reservation) → get i s.reservations ≡ some r → is_pending r.status ≡ false)
    → IsRelease i s s
unchanged-IsRelease i s c f over = record {
  consistent = c;
  storable = f;
  rows = λ j. elim (Option-cases (get j s.reservations)) [
    | inl missing ↦ rw missing
    | inr (r, found) ↦ elim (Bool-cases (i == j)) [
      | inl same ↦ ground (arith, over r (ground arith))
      | inr other ↦ ground arith
    ]
  ];
}

committed-IsRelease :
    (i : ℕ) (s : Session)
    → IsConsistent s
    → IsStorable s
    → IsRelease i s (committed s (release_reservation i s))
unfolding committed release_reservation
committed-IsRelease i s c f = elim (Option-cases (get i s.reservations)) [
  | inl missing ↦ rw (missing, release_reservation) (unchanged-IsRelease i s c f (λ r found. cc))
  | inr (r, found) ↦ elim (Bool-cases (is_pending r.status)) [
    | inr over ↦
        rw (found, release_reservation, over) (unchanged-IsRelease i s c f (λ q at. ground arith))
    | inl waiting ↦
        let (s', done) = release_row_total i r s found (is_pending-eq r.status waiting) c f in
        rw (found, release_reservation, waiting, done)
          (record {
            consistent =
                (release_row-IsSafe i r s found (is_pending-eq r.status waiting) c s'
                  done).consistent;
            storable =
                restocked-IsStorable r s s'
                  (release_row-IsSafe i r s found (is_pending-eq r.status waiting) c s'
                    done).conserves
                  (release_row-products i r s found (is_pending-eq r.status waiting) c s' done) f;
            rows = λ j. ground (
              arith,
              get-put j i (expired_row r) r s.reservations,
              release_row-reservations i r s found (is_pending-eq r.status waiting) c s' done,
            );
          })
  ]
]

unfoldable has_key : ℕ → Table Reservation → Bool
has_key j [] = false
has_key j ((i, _) ∷ rows) = i == j || has_key j rows

end_twice :
    (a b : Bool) (o : Option Reservation)
    → map_row (end_if b) (map_row (end_if a) o) ≡ map_row (end_if (a || b)) o
end_twice a b none = refl
end_twice a b (some r) = ground arith

release_each-rows :
    (rows : Table Reservation) (s : Session) (j : ℕ)
    → IsConsistent s
    → IsStorable s
    → get j (release_each rows s).reservations
      ≡ map_row (end_if (has_key j rows)) (get j s.reservations)
unfolding release_each has_key
release_each-rows [] s j c f = elim (Option-cases (get j s.reservations)) [
  | inl missing ↦ ground arith
  | inr (r, found) ↦ ground arith
]
release_each-rows ((i, _) ∷ rows) s j c f =
    let one : IsRelease i s (committed s (release_reservation i s)) = committed-IsRelease i s c f in
    release_each-rows rows (committed s (release_reservation i s)) j one.consistent one.storable
    ∙ ap (map_row (end_if (has_key j rows))) (one.rows j)
    ∙ end_twice (i == j) (has_key j rows) (get j s.reservations)

-- A key that the query returns is a row's that satisfies the condition.
has_key-select-none :
    (p : Reservation → Bool) (t : Table Reservation) (j : ℕ)
    → get j t ≡ none
    → has_key j (select p t) ≡ false
unfolding has_key get select
has_key-select-none p [] j h = refl
has_key-select-none p ((i, q) ∷ t) j h = ground (arith, has_key-select-none p t j)

has_key-select :
    (p : Reservation → Bool) (t : Table Reservation) (j : ℕ) (r : Reservation)
    → IsKeyed t
    → get j t ≡ some r
    → has_key j (select p t) ≡ p r
unfolding has_key get select
has_key-select p [] j r k h = cc
has_key-select p ((i, q) ∷ t) j r k h = elim (Bool-cases (i == j)) [
  | inl same ↦ ground (arith, has_key-select-none p t j)
  | inr other ↦ ground (arith, has_key-select p t j r k.1)
]

-- From consistent and storable tables, the sweep turns every reservation that is PENDING and past
-- its deadline into EXPIRED, and leaves every other reservation, and its absence, as it was.
pub release_expired_reservations-exact :
    (now : ℕ) (s : Session) (j : ℕ)
    → IsConsistent s
    → IsStorable s
    → get j (release_expired_reservations now s).reservations
      ≡ map_row
          (λ r. if is_pending r.status && ltb r.expires_at now then expired_row r else r)
          (get j s.reservations)
unfolding release_expired_reservations
release_expired_reservations-exact now s j c f =
    release_each-rows (select (is_expired now) s.reservations) s j c f
    ∙ elim (Option-cases (get j s.reservations)) [
      | inl missing ↦ ground arith
      | inr (r, found) ↦
          ground
            (arith, has_key-select (is_expired now) s.reservations j r c.reservations_keyed found)
    ]
