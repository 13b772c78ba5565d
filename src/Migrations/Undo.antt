-- ===== src/Migrations/Undo.antt =====
-- The downgrades that take back their upgrades, and one that cannot.
use fair_drop.Common.{
  IsOneOf, one_of, ◌≡◌, refl, sym, ap, ◌&&◌, subst, ◌∙◌, inl, inr, Bool, true, false, String, none,
  some, List, [], ◌∷◌, arith, Option-cases, and_true, All,
}
use fair_drop.Migrations.{
  Operation, Columns, columns_after, inverse, taken_back, undo, add_column, Migration, required,
  boolean,
}
use fair_drop.Migrations.Engine.{
  Engine, run, run-refused, run-first, run-append, IsDescribed, keeps_rows,
}
use fair_drop.Migrations.Versions.{
  initial_migration, add_inventory_models, refine_models_relationship, add_refresh_tokens,
  make_price_non_nullable, add_order_status_param, first_placeholder, second_placeholder,
  add_product_image_model, make_datetime_timezone_aware, add_indexes_to_status_and_created_at,
  add_performance_indexes, second_add_performance_indexes, add_rbac_and_product_status,
  add_audit_log_model, add_b2b_api_keys, add_product_moderation_comment,
}

-- Whether every directive has an inverse.
unfoldable is_invertible : List Operation → Bool
unfolding inverse
is_invertible [] = true
is_invertible (op ∷ ops) = elim (inverse op) [ none ↦ false | some back ↦ is_invertible ops ]

-- Each directive says of its column what the column is when its turn comes.
abbrev pub AllDescribed : List Operation → Columns → Type 0
AllDescribed [] cs = Unit
AllDescribed (op ∷ ops) cs = IsDescribed op cs × AllDescribed ops (columns_after op cs)

unfoldable all_keep_rows : List Operation → Bool
all_keep_rows [] = true
all_keep_rows (op ∷ ops) = keeps_rows op && all_keep_rows ops

-- The migrations whose `downgrade` is the inverse of each directive of their `upgrade`, from the
-- last to the first.
abbrev pub reversible : List Migration
reversible =
    initial_migration ∷ add_inventory_models ∷ refine_models_relationship ∷ add_refresh_tokens
    ∷ make_price_non_nullable ∷ add_order_status_param ∷ first_placeholder ∷ second_placeholder
    ∷ add_product_image_model ∷ make_datetime_timezone_aware ∷ add_indexes_to_status_and_created_at
    ∷ add_performance_indexes ∷ second_add_performance_indexes ∷ add_audit_log_model
    ∷ add_b2b_api_keys ∷ add_product_moderation_comment ∷ []

abbrev IsReversed : Migration → Type 0
IsReversed m = (m.downgrade ≡ undo m.upgrade) × (is_invertible m.upgrade ≡ true)

reversible-IsReversed : All IsReversed reversible
unfolding undo is_invertible
reversible-IsReversed = (
  (refl, refl),
  (
    (refl, refl),
    (
      (refl, refl),
      (
        (refl, refl),
        (
          (refl, refl),
          (
            (refl, refl),
            (
              (refl, refl),
              (
                (refl, refl),
                (
                  (refl, refl),
                  (
                    (refl, refl),
                    (
                      (refl, refl),
                      (
                        (refl, refl),
                        ((refl, refl), ((refl, refl), ((refl, refl), ((refl, refl), tt)))),
                      ),
                    ),
                  ),
                ),
              ),
            ),
          ),
        ),
      ),
    ),
  ),
)

module _ (engine : Engine) where
  run-undo :
      (ops : List Operation) (s s' : engine.Catalog)
      → is_invertible ops ≡ true
      → AllDescribed ops (engine.columns s)
      → run engine ops s ≡ some s'
      → run engine (undo ops) s' ≡ some s
  unfolding run undo is_invertible
  run-undo [] s s' invertible described h = sym h
  run-undo (op ∷ ops) s s' invertible (now, later) h = elim (Option-cases (inverse op)) [
    | inl nothing ↦ absurd (ground arith)
    | inr (back, found) ↦
        let (s1, done, rest) = run-first engine op ops s s' h in
        let described = subst (AllDescribed ops) (sym (engine.columns-apply op s s1 done)) later in
        let undone = run-undo ops s1 s' (ground arith) described rest in
        run-append engine (undo ops) (taken_back (inverse op)) s' s1 undone
        ∙ rw (found, engine.apply-inverse op back s s1 found now done, run)
  ]

  -- A downgrade of these migrations runs after its upgrade and gives the catalog back that the
  -- upgrade has started from, if the columns that it alters were what it says they were.
  pub downgrade-restores :
      (m : Migration) (s s' : engine.Catalog)
      → IsOneOf m reversible
      → AllDescribed m.upgrade (engine.columns s)
      → run engine m.upgrade s ≡ some s'
      → run engine m.downgrade s' ≡ some s
  downgrade-restores m s s' one described h =
      let (reversed, invertible) = one_of IsReversed reversible reversible-IsReversed m one in
      ap (λ ops. run engine ops s') reversed ∙ run-undo m.upgrade s s' invertible described h

  has_rows-run :
      (ops : List Operation) (t : String) (s s' : engine.Catalog)
      → all_keep_rows ops ≡ true
      → run engine ops s ≡ some s'
      → engine.has_rows t s' ≡ engine.has_rows t s
  unfolding run all_keep_rows
  has_rows-run [] t s s' keep h = cc
  has_rows-run (op ∷ ops) t s s' keep h =
      let (s1, done, rest) = run-first engine op ops s s' h in
      let (first, others) = and_true (keeps_rows op) (all_keep_rows ops) keep in
      has_rows-run ops t s1 s' others rest ∙ engine.has_rows-apply op t s s1 first done

  -- Where there is a user, the upgrade that adds the roles cannot be taken back: its downgrade adds
  -- `is_superuser` as a required column without a default.
  pub rbac_downgrade-refused :
      (s s' : engine.Catalog)
      → engine.has_rows "users" s ≡ true
      → run engine add_rbac_and_product_status.upgrade s ≡ some s'
      → run engine add_rbac_and_product_status.downgrade s' ≡ none
  unfolding all_keep_rows
  rbac_downgrade-refused s s' users h =
      let kept = has_rows-run add_rbac_and_product_status.upgrade "users" s s' refl h in
      run-refused engine (add_column "users" (required "is_superuser" boolean)) _ s'
        (engine.add_required "users" (required "is_superuser" boolean) s' (kept ∙ users) refl refl)
