-- ===== src/Routes/Repeated.antt =====
-- What a repeated request does, whenever it comes: the cache and the services together.
use fair_drop.Common.{ℕ, ◌≤◌, ◌≡◌, ◌≢◌, refl, inl, inr, String, arith}
use fair_drop.Exceptions.{Error, Result, ok, err, Result-cases}
use fair_drop.Config.{Settings}
use fair_drop.Models.{User, Reservation, Order}
use fair_drop.Database.{Session}
use fair_drop.Users.Access.{Jwt, get_current_user}
use fair_drop.RateLimit.{Counters, check_rate_limit}
use fair_drop.Idempotency.{Cache, HttpRequest, Reply, fresh, cached, Codec, redis_key, finished}
use fair_drop.Idempotency.Replay.{idempotent_repeat}
use fair_drop.Inventory.Schemas.{ReservationCreate}
use fair_drop.Inventory.Reserve.{reserve_items}
use fair_drop.Inventory.Reserve.Keys.{reserve_items-key_once}
use fair_drop.Orders.Service.{confirm_order_payment}
use fair_drop.Orders.Settlement.{settled_once}
use fair_drop.Lifecycle.{IsConsistent}
use fair_drop.Routes.{closed}
use fair_drop.Routes.Inventory.{reservation_buckets, reserve, reservation_data}
use fair_drop.Routes.Orders.{idempotent_endpoint, confirm_order_payment_endpoint}

-- Nothing was handled anew: the answer is an earlier one, or an error.
pub IsNotFresh {ℓ} : {R : Type ℓ} → Result (Reply R) → Type 0
IsNotFresh (ok (fresh r)) = ⊥
IsNotFresh (ok (cached text)) = Unit {0}
IsNotFresh (err e) = Unit {0}

IsNotFresh-err {ℓ} : (R : Type ℓ) (e : Error) → IsNotFresh {R = R} (err e)
unfolding IsNotFresh
IsNotFresh-err R e = tt

IsNotFresh-cached {ℓ} : (R : Type ℓ) (text : String) → IsNotFresh {R = R} (ok (cached text))
unfolding IsNotFresh
IsNotFresh-cached R text = tt

-- A handler that raised leaves nothing in the cache.
finished_err {ℓ κ} :
    {S : Type ℓ} {R : Type κ} (cache : Cache) (codec : Codec R) (now ttl : ℕ) (k : String)
    (store : cache.Store) (m : Result R × S) (e : Error)
    → m.0 ≡ err e
    → finished cache codec now ttl k store m ≡ (err e, store, m.1)
finished_err cache codec now ttl k store (err e', s) e h = ground arith
finished_err cache codec now ttl k store (ok r, s) e h = cc

module _ (redis : Counters) (uuid_text : ℕ → String) (settings : Settings) where
  pub reserve-ok :
      (now id : ℕ) (u : User) (key : String) (d : ReservationCreate)
      (counters counters' : redis.Store) (s s' : Session) (r : Reservation)
      → reserve redis uuid_text settings now id u key d (counters, s) ≡ (ok r, (counters', s'))
      → reserve_items settings now id u.id key d s ≡ ok (r, s')
  reserve-ok now id u key d counters counters' s s' r h = ground arith

  reserve-refused :
      (now id : ℕ) (u : User) (key : String) (d : ReservationCreate) (counters : redis.Store)
      (s : Session)
      → ((r : Reservation) (s' : Session) → reserve_items settings now id u.id key d s ≢ ok (r, s'))
      → let run = reserve redis uuid_text settings now id u key d (counters, s) in
        (e : Error) × (run.0 ≡ err e) × (run.1.1 ≡ s)
  reserve-refused now id u key d counters s refused =
      let checked =
        check_rate_limit redis now (reservation_buckets uuid_text settings u.id d)
          settings.rate_limit_ttl_seconds counters in
      elim (Result-cases checked.0) [
        | inr (e, over) ↦ (e, rw (over, reserve) refl, rw (over, reserve) refl)
        | inl (done, within) ↦ elim (Result-cases (reserve_items settings now id u.id key d s)) [
          | inl ((r, s'), made) ↦ absurd (refused r s' made)
          | inr (e, failed) ↦
              (e, rw (within, reserve) (rw failed refl), rw (within, reserve) (rw failed refl))
        ]
      ]

  module _ (cache : Cache) (codec : Codec Reservation) (jwt : Jwt) where
    -- A repeated reservation reserves nothing: once a request to reserve has been answered by its
    -- handler, a request with its method, path and key that is the next to change the database,
    -- at any later time, is answered from the cache or by an error, and leaves the database as it
    -- was, whoever sends it and whatever it asks for.
    pub reservation_data_once :
        (now id : ℕ) (token : String) (request : HttpRequest) (key : String) (d : ReservationCreate)
        (store store' : cache.Store) (counters counters' : redis.Store) (s s' : Session)
        (r : Reservation) (later id' : ℕ) (token' : String) (d' : ReservationCreate)
        (counters″ : redis.Store)
        → reservation_data redis uuid_text settings cache codec jwt now id token request key d store
            (counters, s)
          ≡ (ok (fresh r), store', (counters', s'))
        → now ≤ later
        → let again =
            reservation_data redis uuid_text settings cache codec jwt later id' token' request key
              d' store'
              (counters″, s') in
          IsNotFresh again.0 × (again.2.1 ≡ s')
    unfolding reservation_data
    reservation_data_once now id token request key d store store' counters counters' s s' r later
          id' token' d' counters″ h after =
        elim (Result-cases (get_current_user jwt settings now token s)) [
          | inr (e, unknown) ↦ absurd (ground arith)
          | inl (u, known) ↦ elim (Result-cases (get_current_user jwt settings later token' s')) [
            | inr (e, stranger) ↦
                rw (stranger, reservation_data) (IsNotFresh-err Reservation e, refl)
            | inl (v, current) ↦
                let (k, named, ran, outcome) =
                  idempotent_repeat cache codec now settings.idempotent_key_lifetime_sec request
                    (reserve redis uuid_text settings now id u key d) store store' (counters, s)
                    (counters', s') r later settings.idempotent_key_lifetime_sec
                    (reserve redis uuid_text settings later id' v key d') (counters″, s')
                    (ground arith) after in
                let (e, failed, kept) = reserve-refused later id' v key d' counters″ s' (λ r' s″.
                  reserve_items-key_once settings now id u.id key d s s' r later id' v.id d' r' s″
                    (reserve-ok now id u key d counters counters' s s' r ran)) in
                elim outcome [
                  | inl hit ↦
                      rw (current, reservation_data)
                        (rw hit (IsNotFresh-cached Reservation _, refl))
                  | inr miss ↦
                      rw (current, reservation_data)
                        (rw miss (
                          rw
                            (finished_err cache codec later settings.idempotent_key_lifetime_sec
                              (redis_key request.method request.path k) store'
                              (reserve redis uuid_text settings later id' v key d' (counters″, s'))
                              e failed)
                            (IsNotFresh-err Reservation e, kept)))
                ]
          ]
        ]

-- A function that is refused leaves its session as it was.
closed_refused :
    (s : Session) (m : Result (Order × Session))
    → ((o : Order) (s' : Session) → m ≢ ok (o, s'))
    → (e : Error) × ((closed s m).0 ≡ err e) × ((closed s m).1 ≡ s)
closed_refused s (err e) refused = (e, refl, refl)
closed_refused s (ok (o, s')) refused = absurd (refused o s' refl)

pub closed-ok :
    (s s' : Session) (m : Result (Order × Session)) (o : Order)
    → closed s m ≡ (ok o, s')
    → m ≡ ok (o, s')
closed-ok s s' (err e) o h = cc
closed-ok s s' (ok (p, t)) o h = ground arith

module _ (cache : Cache) (codec : Codec Order) (jwt : Jwt) (settings : Settings) where
  -- A function that goes through once is run once.
  endpoint_once :
      (func : User → Session → Result (Order × Session)) (now : ℕ) (token : String)
      (request : HttpRequest) (store store' : cache.Store) (s s' : Session) (o : Order) (later : ℕ)
      (token' : String)
      → idempotent_endpoint cache codec jwt settings func now token request store s
        ≡ (ok (fresh o), store', s')
      → ((u v : User)
          → func u s ≡ ok (o, s')
          → (o' : Order) (s″ : Session) → func v s' ≢ ok (o', s″))
      → now ≤ later
      → let again =
          idempotent_endpoint cache codec jwt settings func later token' request store' s' in
        IsNotFresh again.0 × (again.2 ≡ s')
  unfolding idempotent_endpoint
  endpoint_once func now token request store store' s s' o later token' h single after =
      elim (Result-cases (get_current_user jwt settings now token s)) [
        | inr (e, unknown) ↦ absurd (ground arith)
        | inl (u, known) ↦ elim (Result-cases (get_current_user jwt settings later token' s')) [
          | inr (e, stranger) ↦ rw (stranger, idempotent_endpoint) (IsNotFresh-err Order e, refl)
          | inl (v, current) ↦
              let ttl = settings.idempotent_key_lifetime_sec in
              let (k, named, ran, outcome) =
                idempotent_repeat cache codec now ttl request (λ t. closed t (func u t)) store
                  store' s s' o later ttl (λ t. closed t (func v t)) s' (ground arith) after in
              let (e, failed, kept) =
                closed_refused s' (func v s') (single u v (closed-ok s s' (func u s) o ran)) in
              elim outcome [
                | inl hit ↦
                    rw (current, idempotent_endpoint) (rw hit (IsNotFresh-cached Order _, refl))
                | inr miss ↦
                    rw (current, idempotent_endpoint)
                      (rw miss (
                        rw
                          (finished_err cache codec later ttl
                            (redis_key request.method request.path k) store' (closed s' (func v s'))
                            e failed)
                          (IsNotFresh-err Order e, kept)))
              ]
        ]
      ]

  -- A repeated payment pays for nothing: from consistent tables, once a request to pay for an
  -- order has been answered by its handler, a request with its method, path and key that is the
  -- next to change the database, at any later time, is answered from the cache or by an error, and
  -- leaves the database as it was, whoever sends it.
  pub confirm_order_payment_endpoint_once :
      (order_id now : ℕ) (token : String) (request : HttpRequest) (store store' : cache.Store)
      (s s' : Session) (o : Order) (later : ℕ) (token' : String)
      → IsConsistent s
      → confirm_order_payment_endpoint cache codec jwt settings order_id now token request store s
        ≡ (ok (fresh o), store', s')
      → now ≤ later
      → let again =
          confirm_order_payment_endpoint cache codec jwt settings order_id later token' request
            store' s' in
        IsNotFresh again.0 × (again.2 ≡ s')
  unfolding confirm_order_payment_endpoint
  confirm_order_payment_endpoint_once order_id now token request store store' s s' o later token' c
        h after =
      endpoint_once (confirm_order_payment order_id) now token request store store' s s' o later
        token' h
        (λ u v paid o' s″ again. elim (settled_once order_id u v s s' o c (inl paid)).0 [
          | inl conflicts ↦ ground arith
          | inr denied ↦ ground arith
        ])
        after
