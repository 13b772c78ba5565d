-- ===== src/Startup.antt =====
-- The start-up: the addresses of app/core/config.py, the bucket of app/core/s3.py, the lifespan of
-- app/main.py and the worker of app/worker.py.
pub mod Resources
use Prim.Native.String
use fair_drop.Common.{
  ℕ, ◌+◌, ◌-◌, ◌≡◌, refl, Bool, true, false, String, Option, none, some, ◌==◌, str_eq,
  if◌then◌else◌,
}
use fair_drop.Exceptions.{Error, Result, ok, err, ◌>>=◌}

-- The settings that an address of the database is made of; `db_port` as it is written.
pub record DatabaseSettings : Type 0 where
  pub db_user : String
  pub db_password : String
  pub db_host : String
  pub db_port : String
  pub db_name : String

-- `f'postgresql+asyncpg://{user}:{password}@{host}:{port}/{name}'`
abbrev address : String → DatabaseSettings → String
address password c = String.◌++◌ "postgresql+asyncpg://" (
    String.◌++◌ c.db_user (
      String.◌++◌ ":" (
        String.◌++◌ password (
          String.◌++◌ "@" (
            String.◌++◌ c.db_host
              (String.◌++◌ ":" (String.◌++◌ c.db_port (String.◌++◌ "/" c.db_name))))))))

unfoldable pub database_url : DatabaseSettings → String
database_url c = address c.db_password c

pub database_url_masked : DatabaseSettings → String
database_url_masked c = address "****" c

-- The object storage, a parameter: HEAD of a bucket with the code of its error, and its creation,
-- after which HEAD finds it.
pub record Buckets : Type 1 where
  pub Store : Type 0
  pub head_bucket : String → Store → Option String
  pub create_bucket : String → Store → Store
  pub head-create : (name : String) (s : Store) → head_bucket name (create_bucket name s) ≡ none

-- The error of HEAD is logged, but for the one that asks for the creation.
pub init_s3_bucket : (buckets : Buckets) → String → buckets.Store → buckets.Store
init_s3_bucket buckets name s = elim (buckets.head_bucket name s) [
  | none ↦ s
  | some code ↦ if str_eq code "404" then buckets.create_bucket name s else s
]

-- What the processes hold open: the clients of Redis, the pools of the queue and the engines.
pub record Open : Type 0 where
  pub clients : ℕ
  pub pools : ℕ
  pub engines : ℕ

-- `create_pool` and `create_async_engine` answer, or raise.
pub record Outside : Type 0 where
  pub create_pool : Result (Unit {0})
  pub init_bucket : Result (Unit {0})
  pub create_engine : Result (Unit {0})

-- `lifespan` up to its yield: what is open, and whether the application starts.
pub lifespan_enter : Outside → Open → Result (Unit {0}) × Open
lifespan_enter o s =
    let with_client = record s { clients = s.clients + 1 } in
    elim o.create_pool [
      | err e ↦ (err e, with_client)
      | ok _ ↦ (o.init_bucket, record with_client { pools = s.pools + 1 })
    ]

-- Its `finally`.
pub lifespan_exit : Open → Open
lifespan_exit s = record s { clients = s.clients - 1; pools = s.pools - 1 }

-- The worker's context: whether it has a `session_maker`.
abbrev pub WorkerContext : Type 0
WorkerContext = Bool

pub startup : Outside → WorkerContext → Open → Result WorkerContext × Open
startup o ctx s = elim o.create_engine [
  | err e ↦ (err e, s)
  | ok _ ↦ (ok true, record s { engines = s.engines + 1 })
]

pub shutdown : WorkerContext → Open → Open
shutdown false s = s
shutdown true s = record s { engines = s.engines - 1 }
