-- ===== src/Routes/Overlap.antt =====
-- Requests to reserve that overlap: between the reading and the writing of the cache of one, the
-- steps of the others are taken.
use fair_drop.Common.{
  ℕ, ◌≡◌, ◌≢◌, refl, sym, subst, inl, inr, String, some, List, [], ◌∷◌, ◌++◌, ◌∙◌, Bool-cases,
  arith, ◌==◌, ==_iff,
}
use fair_drop.Common.Table.{get}
use fair_drop.Common.Table.Laws.{get-append}
use fair_drop.Exceptions.{Result, ok, Result-cases}
use fair_drop.Config.{Settings}
use fair_drop.Models.{User, Reservation}
use fair_drop.Database.{Session}
use fair_drop.RateLimit.{Counters, check_rate_limit}
use fair_drop.Idempotency.{Cache, HttpRequest, fresh, Codec}
use fair_drop.Idempotency.Overlap.{waiting, answered, Event, World, perform_all}
use fair_drop.Idempotency.Overlap.Once.{IsThrough, same_request}
use fair_drop.Inventory.Schemas.{ReservationCreate}
use fair_drop.Inventory.Reserve.{reserve_items}
use fair_drop.Inventory.Reserve.Outcome.{reserve_items-ok}
use fair_drop.Inventory.Reserve.Keys.{reserve_items-not_ok}
use fair_drop.Routes.Inventory.{reservation_buckets, reserve}
use fair_drop.Routes.Repeated.{reserve-ok}

-- A request to reserve, with the key that its row would have.
pub record ReservationRequest : Type 0 where
  pub id : ℕ
  pub user : User
  pub http : HttpRequest
  pub key : String
  pub wanted : ReservationCreate

-- Some reservation has the key.
abbrev IsTaken {ℓ} : {C : Type ℓ} → String → C × Session → Type 0
IsTaken key (c, s) =
    (j : ℕ) × (q : Reservation) × (get j s.reservations ≡ some q) × (q.idempotency_key ≡ key)

module _ (redis : Counters) (uuid_text : ℕ → String) (settings : Settings)
    (calls : ℕ → ReservationRequest) where
  -- The handler of each request.
  abbrev pub handler : ℕ → ℕ → redis.Store × Session → Result Reservation × (redis.Store × Session)
  handler i now s =
      let c = calls i in reserve redis uuid_text settings now c.id c.user c.key c.wanted s

  reserved-IsTaken :
      (settings : Settings) (now id user_id : ℕ) (key : String) (d : ReservationCreate)
      (s s' : Session) (r : Reservation) (l : String) (c : redis.Store)
      → reserve_items settings now id user_id key d s ≡ ok (r, s')
      → IsTaken l (c, s)
      → IsTaken l (c, s')
  reserved-IsTaken settings now id user_id key d s s' r l c h (j, q, found, same) =
      let (p, known, fits, new, made, after) =
        reserve_items-ok settings now id user_id key d s r s' h in
      let kept : get j (s.reservations ++ (id, r) ∷ []) ≡ some q = elim (Bool-cases (id == j)) [
        | inl own ↦ absurd (let e = (==_iff id j).0 own in ground arith)
        | inr other ↦ get-append j id r s.reservations new ∙ rw other found
      ] in
      (j, q, rw after kept, same)

  takes :
      (i now : ℕ) (s s' : redis.Store × Session) (r : Reservation)
      → handler i now s ≡ (ok r, s')
      → IsTaken (calls i).key s'
  takes i now (c, s) (c', s') r h =
      let k = calls i in
      let (p, known, fits, new, made, after) =
        reserve_items-ok settings now k.id k.user.id k.key k.wanted s r s'
          (reserve-ok redis uuid_text settings now k.id k.user k.key k.wanted c c' s s' r h) in
      (
        k.id,
        r,
        rw after (rw (get-append k.id k.id r s.reservations new) (ground arith)),
        rw made refl,
      )

  refuses :
      (i now : ℕ) (s s' : redis.Store × Session) (r : Reservation)
      → IsTaken (calls i).key s
      → handler i now s ≢ (ok r, s')
  refuses i now (c, s) (c', s') r (j, q, found, same) h =
      let k = calls i in
      reserve_items-not_ok settings now k.id k.user.id k.key k.wanted s j q found same r s'
        (reserve-ok redis uuid_text settings now k.id k.user k.key k.wanted c c' s s' r h)

  stays :
      (i now : ℕ) (l : String) (s : redis.Store × Session)
      → IsTaken l s
      → IsTaken l (handler i now s).1
  stays i now l (c, s) taken =
      let k = calls i in
      let checked =
        check_rate_limit redis now (reservation_buckets uuid_text settings k.user.id k.wanted)
          settings.rate_limit_ttl_seconds c in
      elim (Result-cases checked.0) [
        | inr (e, over) ↦ rw (over, reserve) taken
        | inl (done, within) ↦
            elim (Result-cases (reserve_items settings now k.id k.user.id k.key k.wanted s)) [
              | inl ((r, s'), made) ↦
                  rw (within, reserve)
                    (rw made (
                      reserved-IsTaken settings now k.id k.user.id k.key k.wanted s s' r l c made
                        taken))
              | inr (e, failed) ↦ rw (within, reserve) (rw failed taken)
            ]
      ]

  -- However requests to reserve overlap, and whenever the cache is read and written between their
  -- handlers, at most one of those with a key is answered by its handler with a reservation.
  pub reservations_overlap :
      (cache : Cache) (codec : Codec Reservation) (es : List Event)
      (w : World cache codec settings.idempotent_key_lifetime_sec (λ i. (calls i).http) handler)
      (i j : ℕ) (r r' : Reservation)
      → let w' =
          perform_all cache codec settings.idempotent_key_lifetime_sec
            (λ i. (calls i).http)
            handler
            es
            w in
        ((k : ℕ) → w.stages k ≡ waiting)
        → i ≢ j
        → (calls i).key ≡ (calls j).key
        → w'.stages i ≡ answered (ok (fresh r))
        → w'.stages j ≢ answered (ok (fresh r'))
  reservations_overlap cache codec es w i j r r' start apart same first second = apart (
      same_request cache codec settings.idempotent_key_lifetime_sec (λ i. (calls i).http) handler
        (λ i. (calls i).key) (λ s. Unit) IsTaken (λ i now s good. tt)
        (λ i now s s' r good. takes i now s s' r) (λ i now l s good. stays i now l s) refuses es w i
        j start tt same (subst IsThrough (sym first) tt) (subst IsThrough (sym second) tt))
