-- ===== src/Idempotency.antt =====
-- The decorator `idempotent` of app/shared/decorators.py, which answers a repeated request from a
-- cache in Redis.
pub mod Replay
pub mod Overlap
use Prim.Native.String
use fair_drop.Common.{
  ℕ, ◌+◌, ◌*◌, ◌≤◌, ◌≡◌, ◌≢◌, Bool, true, false, String, Option, none, some, ltb, str_eq,
  if◌then◌else◌,
}
use fair_drop.Exceptions.{Result, ok, err, missing_idempotency_key}
use fair_drop.Config.{microseconds_per_second}

-- Redis, a parameter: GET and SETEX, each with the instant at which it runs. What is set is there
-- until its time to live, in seconds, is over, and other keys are left alone.
pub record Cache : Type 1 where
  pub Store : Type 0
  pub get : ℕ → String → Store → Option String
  pub setex : ℕ → String → ℕ → String → Store → Store
  pub get-setex :
      (later : ℕ) (j : String) (now : ℕ) (k : String) (seconds : ℕ) (v : String) (s : Store)
      → now ≤ later
      → get later j (setex now k seconds v s) ≡ (
          if str_eq k j
          then (if ltb later (now + seconds * microseconds_per_second) then some v else none)
          else get later j s)

-- The parts of a request that the decorator reads.
pub record HttpRequest : Type 0 where
  pub method : String
  pub path : String
  pub idempotency_key : Option String

-- What goes back: the handler's response, or the text of an earlier one.
pub data Reply {ℓ} (R : Type ℓ) : Type ℓ where
  fresh : R → Reply R
  cached : String → Reply R

-- `f'idempotency:{request.method}:{request.url.path}:{idempotency_key}'`
abbrev pub redis_key : String → String → String → String
redis_key method path key =
    String.◌++◌ "idempotency:"
      (String.◌++◌ method (String.◌++◌ ":" (String.◌++◌ path (String.◌++◌ ":" key))))

-- The response as JSON text, which is never empty, and `orjson.dumps(orjson.loads(text))`.
pub record Codec {ℓ} (R : Type ℓ) : Type ℓ where
  pub dump : R → String
  pub reload : String → String
  pub dump-ne-empty : (r : R) → dump r ≢ ""

module _ {ℓ κ} {S : Type ℓ} {R : Type κ} (cache : Cache) (codec : Codec R) where
  -- The handler has run: its response is cached, unless it has raised.
  abbrev pub finished :
      ℕ → ℕ → String → cache.Store → Result R × S → Result (Reply R) × cache.Store × S
  finished now ttl key store (err e, s) = (err e, store, s)
  finished now ttl key store (ok r, s) =
      (ok (fresh r), cache.setex now key ttl (codec.dump r) store, s)

  -- `if cached_response:`
  abbrev pub replayed :
      Option String
      → Result (Reply R) × cache.Store × S
      → cache.Store
      → S
      → Result (Reply R) × cache.Store × S
  replayed none run store s = run
  replayed (some text) run store s =
      if str_eq text "" then run else (ok (cached (codec.reload text)), store, s)

  abbrev pub with_key :
      ℕ
      → ℕ
      → HttpRequest
      → (S → Result R × S)
      → String
      → cache.Store
      → S
      → Result (Reply R) × cache.Store × S
  with_key now ttl request func key store s =
      let k = redis_key request.method request.path key in
      if str_eq key ""
      then (err missing_idempotency_key, store, s)
      else replayed (cache.get now k store) (finished now ttl k store (func s)) store s

  abbrev pub uncached : cache.Store → Result R × S → Result (Reply R) × cache.Store × S
  uncached store (err e, s) = (err e, store, s)
  uncached store (ok r, s) = (ok (fresh r), store, s)

  -- The answer, the cache, and the state that the handler works on. `none` is a call without a
  -- request.
  unfoldable pub idempotent :
      ℕ
      → ℕ
      → Option HttpRequest
      → (S → Result R × S)
      → cache.Store
      → S
      → Result (Reply R) × cache.Store × S
  idempotent now ttl none func store s = uncached store (func s)
  idempotent now ttl (some request) func store s = elim request.idempotency_key [
    | none ↦ (err missing_idempotency_key, store, s)
    | some key ↦ with_key now ttl request func key store s
  ]
