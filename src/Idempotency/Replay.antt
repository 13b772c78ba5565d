-- ===== src/Idempotency/Replay.antt =====
-- A repeated request is answered from the cache.
use fair_drop.Common.{
  ℕ, ◌+◌, ◌*◌, ◌≤◌, ◌<◌, ◌≡◌, ◌≢◌, ◌⊎◌, refl, ◌∙◌, inl, inr, true, false, String, none, some, arith,
  ltb, str_eq, str_eq_iff, str_eq_refl, Bool-cases, Option-cases,
}
use fair_drop.Exceptions.{Result, ok}
use fair_drop.Config.{microseconds_per_second}
use fair_drop.Idempotency.{
  Cache, HttpRequest, fresh, cached, Codec, redis_key, finished, idempotent,
}

not_empty : (text : String) → text ≢ "" → str_eq text "" ≡ false
not_empty text h = elim (Bool-cases (str_eq text "")) [
  | inl empty ↦ absurd (h ((str_eq_iff text "").0 empty))
  | inr there ↦ there
]

lt→ltb : (a b : ℕ) → a < b → ltb a b ≡ true
lt→ltb a b h = ground arith

module _ {ℓ κ} {S : Type ℓ} {R : Type κ} (cache : Cache) (codec : Codec R) where
  -- A first answer that came from the handler is in the cache.
  fresh_stored :
      (now ttl : ℕ) (request : HttpRequest) (func : S → Result R × S) (store store' : cache.Store)
      (s s' : S) (r : R)
      → idempotent cache codec now ttl (some request) func store s ≡ (ok (fresh r), store', s')
      → (key : String) × (request.idempotency_key ≡ some key)
        × (str_eq key "" ≡ false)
        × (func s ≡ (ok r, s'))
        × (store'
            ≡ cache.setex now (redis_key request.method request.path key) ttl (codec.dump r) store)
  unfolding idempotent
  fresh_stored now ttl request func store store' s s' r h =
      elim (Option-cases request.idempotency_key) [
        | inl missing ↦ absurd (ground arith)
        | inr (key, found) ↦ elim (Bool-cases (str_eq key "")) [
          | inl empty ↦ absurd (ground arith)
          | inr there ↦ (key, found, there, ground arith, ground arith)
        ]
      ]

  -- After a request has been answered by its handler, a request with its method, path and key is
  -- answered, until the time to live is over, by the cached text of that answer, whoever sends it
  -- and whatever its handler would do; its handler does not run.
  pub idempotent-replay :
      (now ttl : ℕ) (request : HttpRequest) (func : S → Result R × S) (store store' : cache.Store)
      (s s' : S) (r : R) (later ttl' : ℕ) (func' : S → Result R × S) (s″ : S)
      → idempotent cache codec now ttl (some request) func store s ≡ (ok (fresh r), store', s')
      → now ≤ later
      → later < now + ttl * microseconds_per_second
      → idempotent cache codec later ttl' (some request) func' store' s″
        ≡ (ok (cached (codec.reload (codec.dump r))), store', s″)
  unfolding idempotent
  idempotent-replay now ttl request func store store' s s' r later ttl' func' s″ h after before =
      let (key, found, there, ran, stored) =
        fresh_stored now ttl request func store store' s s' r h in
      let k = redis_key request.method request.path key in
      let hit : cache.get later k store' ≡ some (codec.dump r) = rw stored (
        cache.get-setex later k now k ttl (codec.dump r) store after
        ∙ rw (str_eq_refl k)
            (rw (lt→ltb later (now + ttl * microseconds_per_second) before) refl)) in
      rw found (rw there (rw hit (rw (not_empty (codec.dump r) (codec.dump-ne-empty r)) refl)))

  -- The handler of the first request has run; such a request that comes at any later time is
  -- answered from the cache or handled anew.
  pub idempotent_repeat :
      (now ttl : ℕ) (request : HttpRequest) (func : S → Result R × S) (store store' : cache.Store)
      (s s' : S) (r : R) (later ttl' : ℕ) (func' : S → Result R × S) (s″ : S)
      → idempotent cache codec now ttl (some request) func store s ≡ (ok (fresh r), store', s')
      → now ≤ later
      → let again = idempotent cache codec later ttl' (some request) func' store' s″ in
        (key : String) × (request.idempotency_key ≡ some key)
        × (func s ≡ (ok r, s'))
        × ((again ≡ (ok (cached (codec.reload (codec.dump r))), store', s″))
            ⊎ (again
                ≡ finished cache codec later ttl'
                    (redis_key request.method request.path key)
                    store'
                    (func' s″)))
  unfolding idempotent
  idempotent_repeat now ttl request func store store' s s' r later ttl' func' s″ h after =
      let (key, found, there, ran, stored) =
        fresh_stored now ttl request func store store' s s' r h in
      let k = redis_key request.method request.path key in
      let over = now + ttl * microseconds_per_second in
      elim (Bool-cases (ltb later over)) [
        | inl before ↦ (
          key,
          found,
          ran,
          inl (
              idempotent-replay now ttl request func store store' s s' r later ttl' func' s″ h after
                (ground arith)),
        )
        | inr past ↦
            let gone : cache.get later k store' ≡ none = rw stored (
              cache.get-setex later k now k ttl (codec.dump r) store after
              ∙ rw (str_eq_refl k) (rw past refl)) in
            (key, found, ran, inr (rw found (rw there (rw gone refl))))
      ]
