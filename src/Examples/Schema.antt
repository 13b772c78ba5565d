-- ===== src/Examples/Schema.antt =====
-- A small engine for the migrations: the columns, the objects, and the tables with rows.
pub mod Lists
pub mod Plain
use fair_drop.Common.{
  ◌≡◌, refl, sym, ap, ◌∙◌, subst, inl, inr, Bool, true, false, not, ◌&&◌, ◌||◌, String, Option,
  none, some, List, [], ◌∷◌, ◌++◌, map, arith, str_eq, str_eq_iff, str_eq_refl, Bool-cases,
  and_true, Option-cases, if◌then◌else◌,
}
use mathlib.Core.List.{append-nil}
use fair_drop.Database.{is_some}
use fair_drop.Migrations.{
  Column, ColumnType, Operation, create_table, drop_table, add_column, drop_column, alter_nullable,
  alter_type, create_index, drop_index, create_foreign_key, drop_constraint, drop_type_if_exists,
  Columns, is_column, find, reject, revise, columns_after, Object, index_of, type_of, value_of,
  constraint_of, same_object, creates, can_drop, inverse,
}
use fair_drop.Migrations.Engine.{Engine, IsDescribed, keeps_rows}
use fair_drop.Migrations.Objects.{same_object_lem}

pub record Schema : Type 0 where
  pub columns : Columns
  pub objects : List Object
  pub populated : List String

abbrev pub has_object : Object → List Object → Bool
has_object o [] = false
has_object o (p ∷ ps) = same_object o p || has_object o ps

abbrev pub has_table : String → Columns → Bool
has_table t [] = false
has_table t ((u, c) ∷ cs) = str_eq t u || has_table t cs

abbrev pub is_among : String → List String → Bool
is_among t [] = false
is_among t (u ∷ us) = str_eq t u || is_among t us

-- Whether a directive takes an object away by itself.
unfoldable pub removes : Operation → Object → Bool
unfolding can_drop
removes (drop_index n _) o = same_object o (index_of n)
removes (drop_constraint n t) o = same_object o (constraint_of n t)
removes (drop_type_if_exists n) o = can_drop o (drop_type_if_exists n)
removes _ o = false

unfoldable pub added : Operation → List Object
unfolding creates
added op = elim (creates op) [ none ↦ [] | some o ↦ o ∷ [] ]

abbrev pub is_required : Column → Bool
is_required c = not c.nullable && not (is_some c.server_default)

unfoldable pub is_refused : Operation → Schema → Bool
unfolding creates find
is_refused (create_table t _ _) s = has_table t s.columns
is_refused (add_column t c) s =
    is_some (find t c.name s.columns) || (is_among t s.populated && is_required c)
is_refused (alter_nullable t n _) s = not (is_some (find t n s.columns))
is_refused (alter_type t n _ _) s = not (is_some (find t n s.columns))
is_refused op s = elim (creates op) [ none ↦ false | some o ↦ has_object o s.objects ]

unfoldable pub effect : Operation → Schema → Schema
unfolding columns_after removes added reject
effect op s = record {
  columns = columns_after op s.columns;
  objects = reject (removes op) (s.objects ++ added op);
  populated = s.populated;
}

unfoldable pub apply : Operation → Schema → Option Schema
unfolding is_refused effect
apply op s = if is_refused op s then none else some (effect op s)
