-- ===== src/Migrations/Env.antt =====
-- migrations/env.py: what alembic runs before the migrations, in its two modes.
use fair_drop.Common.{
  ◌≡◌, inl, inr, ◌∙◌, Bool, true, false, String, Option, none, some, Option-cases, contains,
  if◌then◌else◌,
}

-- The arguments of `context.configure`, beside the metadata of the models.
pub record Options : Type 0 where
  pub url : Option String
  pub literal_binds : Bool
  pub paramstyle : String

abbrev pub offline_options : Option String → Options
offline_options url = record { url = url; literal_binds = true; paramstyle = "named" }

-- `alembic.context`, a parameter: its state, and what the file calls. A call that raises has no
-- state. The context has no transaction before `configure`.
pub record Alembic : Type 1 where
  pub Context : Type 0
  pub Connection : Type 0
  pub is_offline_mode : Context → Bool
  pub is_configured : Context → Bool
  -- A value is read with `%` interpolated, and one that is set with a `%` that does not begin an
  -- interpolation raises.
  pub get_main_option : String → Context → Option String
  pub set_main_option : String → String → Context → Option Context
  pub configure : Options → Context → Context
  pub begin_transaction : Context → Option Context
  pub run_migrations : Context → Option Context
  pub commit : Context → Option Context
  -- `async_engine_from_config(…).connect()`, and `dispose`
  pub connect : Context → Option (Connection × Context)
  pub dispose : Context → Context
  pub is_offline_mode-set :
      (k v : String) (c c' : Context)
      → set_main_option k v c ≡ some c'
      → is_offline_mode c' ≡ is_offline_mode c
  pub is_configured-set :
      (k v : String) (c c' : Context)
      → set_main_option k v c ≡ some c'
      → is_configured c' ≡ is_configured c
  -- A value without a `%` is set, and read back.
  pub get-set :
      (k v : String) (c : Context)
      → contains "%" v ≡ false
      → (c' : Context) × (set_main_option k v c ≡ some c') × (get_main_option k c' ≡ some v)
  pub is_configured-connect :
      (c c' : Context) (connection : Connection)
      → connect c ≡ some (connection, c')
      → is_configured c' ≡ is_configured c
  pub begin_transaction-none : (c : Context) → is_configured c ≡ false → begin_transaction c ≡ none

infixl 5 ◌>>=◌
abbrev ◌>>=◌ {κ ℓ} : {A : Type κ} {B : Type ℓ} → Option A → (A → Option B) → Option B
none >>= rest = none
some a >>= rest = rest a

module _ (alembic : Alembic) where
  -- `with context.begin_transaction(): context.run_migrations()`
  pub run_in_transaction : alembic.Context → Option alembic.Context
  run_in_transaction c =
      alembic.begin_transaction c
      >>= (λ begun. alembic.run_migrations begun >>= (λ done. alembic.commit done))

  unfoldable run_migrations_offline : alembic.Context → Option alembic.Context
  unfolding run_in_transaction
  run_migrations_offline c =
      run_in_transaction
        (alembic.configure (offline_options (alembic.get_main_option "sqlalchemy.url" c)) c)

  unfoldable do_run_migrations : alembic.Connection → alembic.Context → Option alembic.Context
  unfolding run_in_transaction
  do_run_migrations connection c = run_in_transaction c

  unfoldable run_migrations_online : alembic.Context → Option alembic.Context
  unfolding do_run_migrations
  run_migrations_online c =
      alembic.connect c
      >>= (λ opened. do_run_migrations opened.0 opened.1 >>= (λ done. some (alembic.dispose done)))

  -- The module itself, which alembic loads.
  pub env : String → alembic.Context → Option alembic.Context
  unfolding run_migrations_offline run_migrations_online
  env database_url c = alembic.set_main_option "sqlalchemy.url" database_url c >>= (λ c'.
      if alembic.is_offline_mode c' then run_migrations_offline c' else run_migrations_online c')

  refused : (c : alembic.Context) → alembic.is_configured c ≡ false → run_in_transaction c ≡ none
  unfolding run_in_transaction
  refused c h = rw (alembic.begin_transaction-none c h)

  online_refused :
      (c : alembic.Context) → alembic.is_configured c ≡ false → run_migrations_online c ≡ none
  unfolding run_migrations_online do_run_migrations
  online_refused c h = elim (Option-cases (alembic.connect c)) [
    | inl down ↦ rw down
    | inr ((connection, c'), opened) ↦
        let unconfigured = alembic.is_configured-connect c c' connection opened ∙ h in
        rw (opened, refused c' unconfigured)
  ]

  -- From a context that is not configured, the url of the settings holding no `%`, the migrations run
  -- offline alone, with that url: online, the file raises before it runs any.
  pub env_lem :
      (database_url : String) (c : alembic.Context)
      → alembic.is_configured c ≡ false
      → contains "%" database_url ≡ false
      → (c' : alembic.Context) × (alembic.set_main_option "sqlalchemy.url" database_url c ≡ some c')
        × (env database_url c ≡ (
            if alembic.is_offline_mode c
            then run_in_transaction (alembic.configure (offline_options (some database_url)) c')
            else none))
  unfolding env run_migrations_offline run_in_transaction
  env_lem database_url c h plain =
      let (c', done, url) = alembic.get-set "sqlalchemy.url" database_url c plain in
      let online =
        online_refused c' (alembic.is_configured-set "sqlalchemy.url" database_url c c' done ∙ h) in
      let mode = alembic.is_offline_mode-set "sqlalchemy.url" database_url c c' done in
      (c', done, rw (done, mode, url, online))
