-- ===== src/Examples/Upgrades.antt =====
-- The migrations on the small engine.
use fair_drop.Common.{
  ℕ, suc, ◌≡◌, ap, sym, contains, refl, inl, inr, Bool, true, false, Option, none, some, List, [],
  ◌∷◌, ◌++◌, String, All, str_eq, str_eq_refl, if◌then◌else◌,
}
use fair_drop.Migrations.Env.{Alembic, offline_options, env, run_in_transaction, env_lem}
use fair_drop.Migrations.{
  Migration, type_values, find, reject, revise, columns_after, required, numeric, optional,
}
use fair_drop.Migrations.Engine.{run}
use fair_drop.Migrations.Versions.{
  versions, upgrades, make_price_non_nullable, add_verification_requests,
}
use fair_drop.Migrations.Objects.{upgrades-refused, upgrade-not_repeatable}
use fair_drop.Migrations.Undo.{downgrade-restores}
use fair_drop.Migrations.Columns.{repaired, without_repeats, left_out, upgrades-metadata}
use fair_drop.Migrations.Columns.Declared.{metadata, metadata_types}
use fair_drop.Examples.Schema.{Schema, apply, effect, is_refused, removes, added}
use fair_drop.Examples.Schema.Plain.{plain_engine}

abbrev empty : Schema
empty = record { columns = []; objects = []; populated = [] }

-- Each migration names the one before it as its `down_revision`.
abbrev IsChained : Option String → List Migration → Type 0
IsChained down [] = Unit
IsChained down (m ∷ ms) = (m.down_revision ≡ down) × IsChained (some m.revision) ms

versions-IsChained : IsChained none versions
versions-IsChained = (
  refl,
  (
    refl,
    (
      refl,
      (
        refl,
        (
          refl,
          (
            refl,
            (
              refl,
              (
                refl,
                (
                  refl,
                  (
                    refl,
                    (
                      refl,
                      (
                        refl,
                        (refl, (refl, (refl, (refl, (refl, (refl, (refl, (refl, (refl, tt))))))))),
                      ),
                    ),
                  ),
                ),
              ),
            ),
          ),
        ),
      ),
    ),
  ),
)

upgrades-refused_example : run plain_engine (upgrades versions) empty ≡ none
upgrades-refused_example = upgrades-refused plain_engine empty

upgrade-not_repeatable_example :
    run plain_engine
      (add_verification_requests.upgrade ++ add_verification_requests.downgrade
        ++ add_verification_requests.upgrade)
      empty
    ≡ none
upgrade-not_repeatable_example =
    upgrade-not_repeatable plain_engine add_verification_requests empty (inr (inr (inl refl)))

-- Products with a price that may be null.
abbrev priced : Schema
priced = record {
  columns = ("products", optional "price" (numeric 10 2)) ∷ [];
  objects = [];
  populated = "products" ∷ [];
}

abbrev repriced : Schema
repriced = record priced { columns = ("products", required "price" (numeric 10 2)) ∷ [] }

priced_upgrade : run plain_engine make_price_non_nullable.upgrade priced ≡ some repriced
unfolding run apply effect is_refused find reject revise columns_after removes added
priced_upgrade = refl

priced_found : find "products" "price" priced.columns ≡ some (optional "price" (numeric 10 2))
unfolding find
priced_found = refl

downgrade-restores_example :
    run plain_engine make_price_non_nullable.downgrade repriced ≡ some priced
downgrade-restores_example =
    downgrade-restores plain_engine make_price_non_nullable priced repriced
      (inr (inr (inr (inr (inl refl))))) ((optional "price" (numeric 10 2), priced_found, refl), tt)
      priced_upgrade

at_head : (s : Schema) × (run plain_engine repaired empty ≡ some s)
unfolding run apply effect is_refused find reject revise columns_after removes added without_repeats
at_head = (_, refl)

upgrades-metadata_example :
    (find "reservations" "expires_at" at_head.0.columns ≡ find "reservations" "expires_at" metadata)
    × All
        (λ (e : String × List String). type_values e.0 repaired ++ left_out e.0 ≡ e.1)
        metadata_types
upgrades-metadata_example =
    upgrades-metadata plain_engine empty at_head.0 "reservations" "expires_at" refl at_head.1

-- A context: its mode, whether it is configured, its options, and how often the migrations have run.
record PlainContext : Type 0 where
  offline : Bool
  configured : Bool
  option : String → Option String
  runs : ℕ

abbrev plain_alembic : Alembic
plain_alembic = record {
  Context = PlainContext;
  Connection = Unit {0};
  is_offline_mode = λ c. c.offline;
  is_configured = λ c. c.configured;
  get_main_option = λ k c. c.option k;
  set_main_option =
      λ k v c. some (record c { option = λ j. if str_eq j k then some v else c.option j });
  configure = λ o c. record c { configured = true };
  begin_transaction = λ c. if c.configured then some c else none;
  run_migrations = λ c. some (record c { runs = suc c.runs });
  commit = λ c. some c;
  connect = λ c. some (tt, c);
  dispose = λ c. c;
  is_offline_mode-set =
      λ k v c c' done. ap (λ x. elim x [ none ↦ true | some d ↦ d.offline ]) (sym done);
  is_configured-set =
      λ k v c c' done. ap (λ x. elim x [ none ↦ true | some d ↦ d.configured ]) (sym done);
  get-set = λ k v c plain. (_, refl, rw (str_eq_refl k));
  is_configured-connect = λ c c' d h. cc;
  begin_transaction-none = λ c h. rw h;
}

abbrev context : PlainContext
context = record { offline = true; configured = false; option = λ k. none; runs = 0 }

env_lem_example :
    (c' : PlainContext) × (plain_alembic.set_main_option "sqlalchemy.url" "postgresql://fairdrop"
        context
      ≡ some c')
    × (env plain_alembic "postgresql://fairdrop" context
        ≡ run_in_transaction plain_alembic
            (plain_alembic.configure (offline_options (some "postgresql://fairdrop")) c'))
unfolding contains
env_lem_example = env_lem plain_alembic "postgresql://fairdrop" context refl refl
