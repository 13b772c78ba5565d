-- ===== src/Idempotency/Overlap.antt =====
-- Requests that overlap: the decorator takes three steps, and those of other requests may come
-- between them.
pub mod Once
use fair_drop.Common.{
  ℕ, ◌≡◌, ◌≢◌, refl, sym, ◌∙◌, ap, subst, inl, inr, ◌⊎◌, Bool, true, false, String, Option, none,
  some, List, [], ◌∷◌, arith, str_eq, ◌==◌, ==_iff, ==_refl, if◌then◌else◌, Bool-cases,
  Option-cases,
}
use fair_drop.Exceptions.{Result, ok, err, missing_idempotency_key, Result-cases}
use fair_drop.Idempotency.{
  Cache, HttpRequest, Reply, fresh, cached, Codec, redis_key, finished, idempotent,
}

-- How far a request is: it has not read the cache, it has found nothing there, its handler has run,
-- or it is answered.
pub data Stage {ℓ} (R : Type ℓ) : Type ℓ where
  waiting missed : Stage R
  ran : Result R → Stage R
  answered : Result (Reply R) → Stage R

-- A step of a request by its number, and the instant at which it is taken.
pub data Event : Type 0 where
  reads handles stores : ℕ → ℕ → Event

abbrev pub at_stage {ℓ} : {R : Type ℓ} → ℕ → Stage R → (ℕ → Stage R) → ℕ → Stage R
at_stage i stage stages j = if i == j then stage else stages j

module _ {ℓ κ} {S : Type ℓ} {R : Type κ} (cache : Cache) (codec : Codec R) (ttl : ℕ)
    (request : ℕ → HttpRequest) (func : ℕ → ℕ → S → Result R × S) where
  -- The cache, the state that the handlers work on, and the stage of each request.
  pub record World : Type (ℓ ⊔ κ) where
    pub store : cache.Store
    pub state : S
    pub stages : ℕ → Stage R

  -- `if cached_response:`
  abbrev pub looked_up : Option String → Stage R
  looked_up none = missed
  looked_up (some text) =
      if str_eq text "" then missed else answered (ok (cached (codec.reload text)))

  -- Up to the reading of the cache.
  unfoldable pub read_cache : ℕ → HttpRequest → cache.Store → Stage R
  read_cache now q store = elim q.idempotency_key [
    | none ↦ answered (err missing_idempotency_key)
    | some key ↦
        if str_eq key ""
        then answered (err missing_idempotency_key)
        else looked_up (cache.get now (redis_key q.method q.path key) store)
  ]

  abbrev pub write_key : ℕ → HttpRequest → Option String → R → cache.Store → cache.Store
  write_key now q none r store = store
  write_key now q (some key) r store =
      cache.setex now (redis_key q.method q.path key) ttl (codec.dump r) store

  abbrev pub read_step : ℕ → ℕ → World → Stage R → World
  read_step i now w waiting = record w {
    stages = at_stage i (read_cache now (request i) w.store) w.stages;
  }
  read_step i now w _ = w

  abbrev pub handle_step : ℕ → ℕ → World → Stage R → World
  handle_step i now w missed =
      let run = func i now w.state in
      record w { state = run.1; stages = at_stage i (ran run.0) w.stages }
  handle_step i now w _ = w

  abbrev pub store_step : ℕ → ℕ → World → Stage R → World
  store_step i now w (ran (ok r)) = record w {
    store = write_key now (request i) (request i).idempotency_key r w.store;
    stages = at_stage i (answered (ok (fresh r))) w.stages;
  }
  store_step i now w (ran (err e)) = record w { stages = at_stage i (answered (err e)) w.stages }
  store_step i now w _ = w

  -- A step whose turn has not come changes nothing.
  unfoldable pub perform : Event → World → World
  unfolding read_cache
  perform (reads i now) w = read_step i now w (w.stages i)
  perform (handles i now) w = handle_step i now w (w.stages i)
  perform (stores i now) w = store_step i now w (w.stages i)

  unfoldable pub perform_all : List Event → World → World
  unfolding perform
  perform_all [] w = w
  perform_all (e ∷ es) w = perform_all es (perform e w)

  -- The request has come to an end with this answer, cache and state.
  abbrev IsAnswered : ℕ → World → Result (Reply R) × cache.Store × S → Type (ℓ ⊔ κ)
  IsAnswered i w run = (w.stages i ≡ answered run.0) × (w.store ≡ run.1) × (w.state ≡ run.2)

  at_own : (i : ℕ) (stage : Stage R) (w : World) → at_stage i stage w.stages i ≡ stage
  at_own i stage w = rw (==_refl i)

  read_waiting :
      (i now : ℕ) (w : World)
      → w.stages i ≡ waiting
      → perform (reads i now) w
        ≡ record w { stages = at_stage i (read_cache now (request i) w.store) w.stages }
  unfolding perform
  read_waiting i now w h = ap (read_step i now w) h

  -- What an answered request has left to do.
  rest_answered :
      (i now : ℕ) (w : World) (a : Result (Reply R))
      → w.stages i ≡ answered a
      → IsAnswered i (perform_all (handles i now ∷ stores i now ∷ []) w) (a, w.store, w.state)
  unfolding perform_all perform
  rest_answered i now w a h =
      subst (λ z. IsAnswered i (store_step i now z (z.stages i)) (a, w.store, w.state))
        (sym (ap (handle_step i now w) h))
        (subst (λ z. IsAnswered i z (a, w.store, w.state)) (sym (ap (store_step i now w) h))
          (h, refl, refl))

  -- What a request that found nothing has left to do.
  rest_missed :
      (i now : ℕ) (w : World) (key : String)
      → (request i).idempotency_key ≡ some key
      → w.stages i ≡ missed
      → IsAnswered i (perform_all (handles i now ∷ stores i now ∷ []) w) (
          finished cache codec now ttl
            (redis_key (request i).method (request i).path key)
            w.store
            (func i now w.state))
  unfolding perform_all perform
  rest_missed i now w key named h =
      let w1 : World = handle_step i now w missed in
      let run = func i now w.state in
      subst
        (λ z. IsAnswered i (store_step i now z (z.stages i)) (
          finished cache codec now ttl (redis_key (request i).method (request i).path key) w.store
            run))
        (sym (ap (handle_step i now w) h))
        (subst
          (λ st. IsAnswered i (store_step i now w1 st) (
            finished cache codec now ttl (redis_key (request i).method (request i).path key) w.store
              run))
          (sym (at_own i (ran run.0) w)) (stored i now w1 key named run.0))
    where
      stored :
          (i now : ℕ) (w : World) (key : String)
          → (request i).idempotency_key ≡ some key
          → (m : Result R)
          → IsAnswered i (store_step i now w (ran m)) (
              finished cache codec now ttl
                (redis_key (request i).method (request i).path key)
                w.store
                (m, w.state))
      stored i now w key named (ok r) = (at_own i (answered (ok (fresh r))) w, rw named, refl)
      stored i now w key named (err e) = (at_own i (answered (err e)) w, refl, refl)

  -- What the reading of the cache decides, and what the decorator does then.
  read_cases :
      (i now : ℕ) (store : cache.Store) (state : S)
      → ((a : Result (Reply R)) × (read_cache now (request i) store ≡ answered a)
          × (idempotent cache codec now ttl (some (request i)) (func i now) store state
              ≡ (a, store, state)))
        ⊎ ((key : String) × ((request i).idempotency_key ≡ some key)
            × (read_cache now (request i) store ≡ missed)
            × (idempotent cache codec now ttl (some (request i)) (func i now) store state
                ≡ finished cache codec now ttl
                    (redis_key (request i).method (request i).path key)
                    store
                    (func i now state)))
  unfolding read_cache idempotent
  read_cases i now store state = elim (Option-cases (request i).idempotency_key) [
    | inl missing ↦
        inl (err missing_idempotency_key, rw (missing, read_cache), rw (missing, idempotent))
    | inr (key, named) ↦ elim (Bool-cases (str_eq key "")) [
      | inl empty ↦ inl (
        err missing_idempotency_key,
        rw (named, empty, read_cache),
        rw (named, empty, idempotent),
      )
      | inr there ↦
          elim (Option-cases
            (cache.get now (redis_key (request i).method (request i).path key) store)) [
              | inl nothing ↦ inr (
                key,
                named,
                rw (named, there, nothing, read_cache),
                rw (named, there, nothing, idempotent),
              )
              | inr (text, found) ↦ elim (Bool-cases (str_eq text "")) [
                | inl blank ↦ inr (
                  key,
                  named,
                  rw (named, there, found, blank, read_cache),
                  rw (named, there, found, blank, idempotent),
                )
                | inr full ↦ inl (
                  ok (cached (codec.reload text)),
                  rw (named, there, found, full, read_cache),
                  rw (named, there, found, full, idempotent),
                )
              ]
            ]
    ]
  ]

  -- The three steps of a request at one instant, with none between them, are the decorator.
  pub uninterrupted :
      (i now : ℕ) (w : World)
      → w.stages i ≡ waiting
      → let w' = perform_all (reads i now ∷ handles i now ∷ stores i now ∷ []) w in
        let run = idempotent cache codec now ttl (some (request i)) (func i now) w.store w.state in
        (w'.stages i ≡ answered run.0) × (w'.store ≡ run.1) × (w'.state ≡ run.2)
  unfolding perform_all
  uninterrupted i now w h =
      let w1 : World = record w {
        stages = at_stage i (read_cache now (request i) w.store) w.stages;
      } in
      let run = idempotent cache codec now ttl (some (request i)) (func i now) w.store w.state in
      subst (λ z. IsAnswered i (perform_all (handles i now ∷ stores i now ∷ []) z) run)
        (sym (read_waiting i now w h))
        (elim (read_cases i now w.store w.state) [
          | inl (a, found, same) ↦
              subst (IsAnswered i (perform_all (handles i now ∷ stores i now ∷ []) w1)) (sym same)
                (rest_answered i now w1 a (at_own i (read_cache now (request i) w.store) w ∙ found))
          | inr (key, named, found, same) ↦
              subst (IsAnswered i (perform_all (handles i now ∷ stores i now ∷ []) w1)) (sym same) (
                rest_missed i now w1 key named
                  (at_own i (read_cache now (request i) w.store) w ∙ found))
        ])
