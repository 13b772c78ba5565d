-- ===== src/Migrations/Engine.antt =====
-- The database under the migrations, a parameter, and the runs of its directives.
use fair_drop.Common.{
  ◌≡◌, ap, ◌∙◌, inl, inr, Option-cases, Bool, true, false, not, String, Option, none, some, List,
  [], ◌∷◌, ◌++◌,
}
use fair_drop.Migrations.{
  Column, Operation, create_table, drop_table, add_column, alter_nullable, alter_type, Columns,
  find, columns_after, Object, creates, can_drop, inverse,
}

-- An `alter_column` says what the column was: its `existing_type`, or that `nullable` changes.
abbrev pub IsDescribed : Operation → Columns → Type 0
IsDescribed (alter_nullable t n b) cs = (c : Column) × (find t n cs ≡ some c) × (c.nullable ≡ not b)
IsDescribed (alter_type t n existing _) cs =
    (c : Column) × (find t n cs ≡ some c) × (c.type ≡ existing)
IsDescribed _ _ = Unit

-- Whether a directive leaves the rows where they are.
abbrev pub keeps_rows : Operation → Bool
keeps_rows (create_table _ _ _) = false
keeps_rows (drop_table _) = false
keeps_rows _ = true

-- PostgreSQL with alembic: a catalog is what the schema is, and which tables have rows. A directive
-- that the database refuses has no catalog.
pub record Engine : Type 1 where
  pub Catalog : Type 0
  pub apply : Operation → Catalog → Option Catalog
  pub columns : Catalog → Columns
  pub has : Object → Catalog → Bool
  pub has_rows : String → Catalog → Bool
  -- What the directives do to the columns.
  pub columns-apply :
      (op : Operation) (s s' : Catalog)
      → apply op s ≡ some s'
      → columns s' ≡ columns_after op (columns s)
  -- What is created is there, it is there until it is dropped, and it is not created twice.
  pub has-creates :
      (op : Operation) (o : Object) (s s' : Catalog)
      → creates op ≡ some o
      → apply op s ≡ some s'
      → has o s' ≡ true
  pub has-keeps :
      (op : Operation) (o : Object) (s s' : Catalog)
      → can_drop o op ≡ false
      → apply op s ≡ some s'
      → has o s ≡ true
      → has o s' ≡ true
  pub creates_once :
      (op : Operation) (o : Object) (s : Catalog)
      → creates op ≡ some o
      → has o s ≡ true
      → apply op s ≡ none
  -- A table with rows takes no column that is required and has no default.
  pub has_rows-apply :
      (op : Operation) (t : String) (s s' : Catalog)
      → keeps_rows op ≡ true
      → apply op s ≡ some s'
      → has_rows t s' ≡ has_rows t s
  pub add_required :
      (t : String) (c : Column) (s : Catalog)
      → has_rows t s ≡ true
      → c.nullable ≡ false
      → c.server_default ≡ none
      → apply (add_column t c) s ≡ none
  -- A directive is taken back by its inverse.
  pub apply-inverse :
      (op back : Operation) (s s' : Catalog)
      → inverse op ≡ some back
      → IsDescribed op (columns s)
      → apply op s ≡ some s'
      → apply back s' ≡ some s

module _ (engine : Engine) where
  -- `context.run_migrations()`: the directives of the migrations, one after another.
  unfoldable pub run : List Operation → engine.Catalog → Option engine.Catalog
  run [] s = some s
  run (op ∷ ops) s = elim (engine.apply op s) [ none ↦ none | some s' ↦ run ops s' ]

  pub run-step :
      (op : Operation) (ops : List Operation) (s s1 : engine.Catalog)
      → engine.apply op s ≡ some s1
      → run (op ∷ ops) s ≡ run ops s1
  unfolding run
  run-step op ops s s1 done = rw (done, run)

  pub run-refused :
      (op : Operation) (ops : List Operation) (s : engine.Catalog)
      → engine.apply op s ≡ none
      → run (op ∷ ops) s ≡ none
  unfolding run
  run-refused op ops s refused = rw (refused, run)

  -- A run that succeeds has a first step and a rest.
  pub run-first :
      (op : Operation) (ops : List Operation) (s s' : engine.Catalog)
      → run (op ∷ ops) s ≡ some s'
      → (s1 : engine.Catalog) × (engine.apply op s ≡ some s1) × (run ops s1 ≡ some s')
  run-first op ops s s' h = elim (Option-cases (engine.apply op s)) [
    | inl refused ↦ absurd (let e = run-refused op ops s refused in cc)
    | inr (s1, done) ↦ (s1, done, let e = run-step op ops s s1 done in cc)
  ]

  pub run-append :
      (xs ys : List Operation) (s s' : engine.Catalog)
      → run xs s ≡ some s'
      → run (xs ++ ys) s ≡ run ys s'
  unfolding run
  run-append [] ys s s' h = ap (λ o. elim o [ none ↦ none | some x ↦ run ys x ]) h
  run-append (op ∷ xs) ys s s' h =
      let (s1, done, rest) = run-first op xs s s' h in
      run-step op (xs ++ ys) s s1 done ∙ run-append xs ys s1 s' rest
