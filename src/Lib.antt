-- ===== src/Lib.antt =====
-- FairDrop, a marketplace for limited drops: sellers publish products after moderation, buyers reserve
-- stock, order what they reserved and pay, and a periodic task gives expired reservations back.
--
-- The parts, and the files that model them:
--   Config        app/core/config.py: the settings that are read
--   Exceptions    app/core/exceptions.py, exception_handlers.py: errors, results,
--                 and the handlers that app/core/setup.py registers (Handlers)
--   Json          the JSON values of snapshots and audit entries
--   Models        the rows of app/services/*/models.py and app/core/audit_log/models.py
--   Database      the session: tables by primary key, and writes that check the constraints
--   Security      app/core/security.py: permission, ownership and roles (Access: who passes)
--   AuditLog      app/core/audit_log/service.py: diffs, masking, entries (Masking, Changes)
--   Inventory     app/services/inventory: Schemas (schemas.py), Service and Reserve (InventoryService),
--                 Admin (InventoryAdminService), Internal (internal.py), and Moderation, the workflow
--                 that Service and Admin implement together (Workflow, Audited)
--   Orders        app/services/orders: Service (service.py, internal.py), Settlement, and
--                 what becomes of the table (Changes)
--   Expiry        app/services/inventory/tasks.py: the sweep (Release, Sweep,
--                 Cancelled, Complete), and a turn of its loop among other transactions (Loaded)
--   Users         app/services/user: Accounts, Tokens, ApiKeys, Verification; Access is
--                 app/shared/deps.py with the login; Hashing is bcrypt
--   RateLimit     app/core/lua_scripts.py, app/shared/rate_limit.py, rate_limit_utils.py: the
--                 counters (Writes, Window, Deadlines)
--   Idempotency   app/shared/decorators.py: the cache of answers (Replay), and requests that overlap
--                 (Overlap)
--   Admin         app/core/admin: the login of the panel and its access tests (Panel), the
--                 formatters of its columns (Formatters), and its views (Views, with Guarded)
--   Startup       app/core/s3.py, app/worker.py, the lifespan of app/main.py and the addresses of
--                 app/core/config.py (Resources)
--   Buyers        app/services/buyer_user/service.py (Figures)
--   Sellers       app/services/seller_user/service.py (Figures, Shown)
--   Media         app/services/media: upload, webhook, sanitizing task (Webhook, Sanitized), and
--                 Paths, the keys of objects and the view of private files (Normal, Views)
--   Routes        app/services/*/routes.py: Inventory (Publishing, Pages, Overlap), Orders (Repeated,
--                 Settlements), Users (Guesses, Keys, Registered), Uploads of media, Partners with
--                 app/services/external/service.py (Catalogue), and the Dashboards of buyers and
--                 sellers (Shown); Routes itself has the middleware of app/main.py
--   Migrations    migrations/versions: the directives of each file (Versions), a database that runs
--                 them (Engine), what is created twice (Objects), what a downgrade takes back (Undo),
--                 and the columns against those of the models (Columns); migrations/env.py (Env)
--   Stock         the units of a product on sale and held, and their conservation
--   Lifecycle     the invariant that links reservations and orders, and that each operation keeps it
--   System        the requests and the turns of the sweeps as one step relation: the stock
--                 (Oversell), a whole sweep (Sweeps), the orders (Orders) and their statuses
--                 against the type of the column (Typed)
--   Examples      a small shop, and the theorems at concrete inputs
-- Common holds the names that all of them share, with tables and their laws.
--
-- Orders call the inventory's internals to close a reservation and to return its stock, the expiry
-- task calls `cancel_order_by_system` of the orders, and every service writes to the audit log
-- within the same transaction. Functions have the names of the code's. A function takes the session
-- that the code receives, and what the code reads from outside as arguments: the time, the keys
-- that `uuid4` draws, the tokens that `secrets` draws, the settings. It returns a `Result`: a method
-- that raises leaves its session to be rolled back, so the new session comes with success alone.
-- Where the code commits before it can fail, the session is returned beside the result.
--
-- Products, reservations, orders and images that a request changes are locked by
-- `with_for_update`, so transactions are taken one at a time. A sweep is one transaction for each
-- reservation, and between them other transactions run; its session keeps the products that it has
-- loaded, as worker.py sets `expire_on_commit=False`, so a turn takes what is loaded of its product as
-- an argument. `Expiry` has the sweep with nothing in between, where the loaded quantity is the row's.
-- The tokens and the requests for a role
-- are not locked: what the theorems say of them holds of requests that do not overlap.
-- Keys and instants are numbers, an instant in microseconds; a call reads the clock once. Prices
-- and amounts are in cents. The ranges of the integer and numeric columns are checked. The expiry
-- of a reservation is never null in the table, so the branch for null is left out. Enumerated
-- columns are data types; the names they have in JSON are functions. The loops run over the rows of
-- a list, but for the one that strips the buckets off a file's key: it has a bound on its rounds, one
-- more than the key has characters, and answers none where that is not enough, which is never.
--
-- Parameters stand for the libraries. `Users.Hashing` is app/core/hashing.py over bcrypt: that a text
-- verifies against its own hash is assumed, and that another text does not is not. `Users.Access.Jwt`
-- encodes and decodes tokens, of which one that has a second left decodes to its own subject.
-- `Media.Storage` is the object storage, which reads back what was put where the put went through,
-- with the image library; whether the task's two transactions commit is an argument.
-- The validation of `EmailStr` is a function of the text, none where it refuses.
-- A presigned upload is a function of the bucket, the path and the bounds. `RateLimit.Counters` and
-- `Idempotency.Cache` are Redis: the commands that the code calls, each with the instant at which it
-- runs, with the documented effect of GET, INCR, EXPIRE and SETEX on a key. `Migrations.Engine` is
-- PostgreSQL under alembic: a directive succeeds or not, and what is documented of its effect on the
-- columns, on what has a name, and of its inverse is assumed; `Migrations.Env.Alembic` is the context
-- of alembic, which has no transaction before it is configured, and reads an option back that was set
-- without a percent sign. `Admin.Views.SqlAdmin` answers a page
-- where its view has not switched it off and lets the user in, and the endpoint of the request is
-- the page's method.
-- `Idempotency.Codec` encodes an answer as a text that is not empty. The presigning of an address, the
-- text of a UUID, the decoding of a URL and the order of names of the database are functions without
-- a law.
--
-- A route takes the user of the token first, then the role, as the framework resolves them, and then
-- the decorated function. What a route does to Redis stays when it raises; what it did to the
-- database does not. The script of the rate limit is one step, as Redis runs it; a
-- route that is idempotent is one step too, but in `Idempotency.Overlap`, where other requests run
-- between the reading of its cache, its handler and the writing. Counters of the rate limit and cached answers are in stores of their own, since their
-- keys have different prefixes.
--
-- Not modelled: the texts of messages and log lines; `updated_at` and the columns that nothing
-- reads; the lengths of text columns, which the schemas bound; the web framework's parsing of
-- requests; how the pages of the admin panel look and what they write, but for the approval of a role
-- request; the task queue; logging; what the UPDATE statements of the migrations do to the rows;
-- scripts and load tests.
pub mod Common
pub mod Config
pub mod Exceptions
pub mod Json
pub mod Models
pub mod Database
pub mod Security
pub mod AuditLog
pub mod Inventory
pub mod Orders
pub mod Expiry
pub mod Stock
pub mod Lifecycle
pub mod System
pub mod Examples
pub mod Users
pub mod Buyers
pub mod Sellers
pub mod Media
pub mod RateLimit
pub mod Routes
pub mod Idempotency
pub mod Admin
pub mod Migrations
pub mod Startup
