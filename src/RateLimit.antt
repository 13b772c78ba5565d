-- ===== src/RateLimit.antt =====
-- The rate limits: the Lua script of app/core/lua_scripts.py, `check_rate_limit` of
-- app/shared/rate_limit.py, and the limits on login and signup of app/shared/rate_limit_utils.py.
pub mod Writes
pub mod Window
pub mod Deadlines
use Prim.Native.String
use fair_drop.Common.{
  ℕ, suc, ◌+◌, ◌*◌, ◌≡◌, Bool, true, false, String, Option, none, some, ltb, leb, ◌==◌, str_eq,
  if◌then◌else◌,
}
use fair_drop.Exceptions.{Result, ok, err, rate_limit_exceeded}
use fair_drop.Config.{Settings, microseconds_per_second}

-- A counter, and the instant from which it is gone, where it has one.
pub record Counter : Type 0 where
  pub value : ℕ
  pub deadline : Option ℕ

abbrev pub is_before : ℕ → Option ℕ → Bool
is_before now none = true
is_before now (some d) = ltb now d

-- What GET, INCR and EXPIRE make of a key's counter, as Redis documents them.
abbrev pub value_at : ℕ → Option Counter → Option ℕ
value_at now none = none
value_at now (some c) = if is_before now c.deadline then some c.value else none

abbrev pub increased : ℕ → Option Counter → Counter
increased now none = record { value = 1; deadline = none }
increased now (some c) =
    if is_before now c.deadline
    then record c { value = suc c.value }
    else record { value = 1; deadline = none }

abbrev pub due : ℕ → ℕ → Option Counter → Option Counter
due now seconds none = none
due now seconds (some c) =
    if is_before now c.deadline
    then some (record c { deadline = some (now + seconds * microseconds_per_second) })
    else none

-- Redis, a parameter: its commands on counters, each with the instant at which it runs, and what
-- they do to the keys.
pub record Counters : Type 1 where
  pub Store : Type 0
  pub get : ℕ → String → Store → Option ℕ
  pub incr : ℕ → String → Store → Store
  pub expire : ℕ → String → ℕ → Store → Store
  pub entry : String → Store → Option Counter
  pub get_lem : (now : ℕ) (k : String) (s : Store) → get now k s ≡ value_at now (entry k s)
  pub entry-incr :
      (j : String) (now : ℕ) (k : String) (s : Store)
      → entry j (incr now k s)
        ≡ (if str_eq k j then some (increased now (entry k s)) else entry j s)
  pub entry-expire :
      (j : String) (now : ℕ) (k : String) (seconds : ℕ) (s : Store)
      → entry j (expire now k seconds s)
        ≡ (if str_eq k j then due now seconds (entry k s) else entry j s)

-- `keys` and `limits`, of which the callers pass one each or two.
pub record Buckets : Type 0 where
  pub user_key : String
  pub user_limit : ℕ
  pub item : Option (String × ℕ)

-- What the script answers: 0, -1 and 1.
pub data Verdict : Type 0 where
  user_exceeded global_exceeded allowed : Verdict

-- `tonumber(redis.call('get', key) or '0')`
abbrev pub or_zero : Option ℕ → ℕ
or_zero none = 0
or_zero (some n) = n

-- `if len(keys) == 1: keys.append(…); limits.append(…)`
abbrev pub item_of : Buckets → String × ℕ
item_of b = elim b.item [
  | none ↦ (String.◌++◌ "rate_limit:dummy:" b.user_key, 999999999)
  | some item ↦ item
]

abbrev pub answer : Verdict → Result (Unit {0})
answer user_exceeded = err rate_limit_exceeded
answer global_exceeded = err rate_limit_exceeded
answer allowed = ok tt

-- `request.client.host`, or `unknown`
abbrev pub host_of : Option String → String
host_of none = "unknown"
host_of (some host) = host

module _ (redis : Counters) where
  -- `if current == 0 then redis.call('expire', key, ttl) end`
  abbrev pub expire_if : Bool → ℕ → String → ℕ → redis.Store → redis.Store
  expire_if first now k ttl s = if first then redis.expire now k ttl s else s

  -- What a request that passes writes.
  abbrev pub counted : ℕ → String → String → Bool → Bool → ℕ → redis.Store → redis.Store
  counted now user_key item_key first_user first_item ttl s =
      expire_if first_item now item_key ttl (
        expire_if first_user now user_key ttl (redis.incr now item_key (redis.incr now user_key s)))

  -- The Lua script, which Redis runs as one step.
  unfoldable pub rate_limit_script :
      ℕ → String → String → ℕ → ℕ → ℕ → redis.Store → Verdict × redis.Store
  rate_limit_script now user_key item_key user_limit item_limit ttl s =
      let current_user_count = or_zero (redis.get now user_key s) in
      let current_item_count = or_zero (redis.get now item_key s) in
      let after =
        counted now user_key item_key (current_user_count == 0) (current_item_count == 0) ttl s in
      if leb user_limit current_user_count
      then (user_exceeded, s)
      else (if leb item_limit current_item_count then (global_exceeded, s) else (allowed, after))

  -- The answer, and the store.
  unfoldable pub check_rate_limit : ℕ → Buckets → ℕ → redis.Store → Result (Unit {0}) × redis.Store
  check_rate_limit now b ttl s =
      let (verdict, s') =
        rate_limit_script now b.user_key (item_of b).0 b.user_limit (item_of b).1 ttl s in
      (answer verdict, s')

  unfoldable pub limit_login_attempts :
      Settings → ℕ → String → redis.Store → Result (Unit {0}) × redis.Store
  limit_login_attempts settings now email =
      check_rate_limit now
        (record {
          user_key = String.◌++◌ "rate_limit:login:" email;
          user_limit = settings.login_rate_limit_attempts;
          item = none;
        })
        settings.login_rate_limit_ttl

  unfoldable pub limit_signup_attempts :
      Settings → ℕ → Option String → redis.Store → Result (Unit {0}) × redis.Store
  limit_signup_attempts settings now client =
      check_rate_limit now
        (record {
          user_key = String.◌++◌ "rate_limit:signup:" (host_of client);
          user_limit = settings.signup_rate_limit_attempts;
          item = none;
        })
        settings.signup_rate_limit_ttl
