-- ===== src/Migrations.antt =====
-- The schema's migrations, migrations/versions: what alembic's directives say, the engine that runs
-- them, and runs of several.
pub mod Engine
pub mod Versions
pub mod Columns
pub mod Objects
pub mod Undo
pub mod Env
use fair_drop.Common.{
  ℕ, ◌≡◌, Bool, true, false, not, ◌&&◌, String, Option, none, some, List, [], ◌∷◌, ◌++◌, map,
  str_eq, if◌then◌else◌,
}

pub data ColumnType : Type 0 where
  uuid text boolean integer json : ColumnType
  varchar : Option ℕ → ColumnType
  numeric : ℕ → ℕ → ColumnType
  -- `DateTime()`, and `DateTime(timezone=True)`
  timestamp timestamp_tz : ColumnType
  enum : String → ColumnType

-- `sa.Column`
pub record Column : Type 0 where
  pub name : String
  pub type : ColumnType
  pub nullable : Bool
  pub server_default : Option String

-- `sa.Column(name, type, nullable=False)`
abbrev pub required : String → ColumnType → Column
required name type = record { name = name; type = type; nullable = false; server_default = none }

-- `sa.Column(name, type, nullable=True)`
abbrev pub optional : String → ColumnType → Column
optional name type = record { name = name; type = type; nullable = true; server_default = none }

-- `sa.Column(name, type, server_default=sa.text('now()'), nullable=False)`
abbrev pub stamped : String → ColumnType → Column
stamped name type = record {
  name = name;
  type = type;
  nullable = false;
  server_default = some "now()";
}

pub data Constraint : Type 0 where
  primary_key unique : String → Constraint
  -- The column, the table and its column, and whether a deletion cascades.
  foreign_key : String → String → String → Bool → Constraint
  check : String → String → Constraint

-- A directive of a migration. The type of an `sa.Enum` column is created before its table:
-- `create_type` stands there for what `create_table` does first.
pub data Operation : Type 0 where
  create_type create_type_if_missing : String → List String → Operation
  drop_type_if_exists : String → Operation
  -- `ALTER TYPE type ADD VALUE value`
  add_value : String → String → Operation
  -- An UPDATE statement of `op.execute`.
  update : String → Operation
  create_table : String → List Column → List Constraint → Operation
  drop_table : String → Operation
  add_column : String → Column → Operation
  drop_column : String → String → Operation
  -- The table, the column, and the new value of `nullable`.
  alter_nullable : String → String → Bool → Operation
  -- The table, the column, `existing_type` and `type_`.
  alter_type : String → String → ColumnType → ColumnType → Operation
  -- The name, the table, its column, and `unique`.
  create_index : String → String → String → Bool → Operation
  drop_index : String → String → Operation
  -- The name, the source table and the other one, and a column of each.
  create_foreign_key : String → String → String → String → String → Operation
  drop_constraint : String → String → Operation

pub record Migration : Type 0 where
  pub revision : String
  pub down_revision : Option String
  pub upgrade : List Operation
  pub downgrade : List Operation

-- The columns of a database with their tables, in the order of creation.
abbrev pub Columns : Type 0
Columns = List (String × Column)

abbrev pub is_column : String → String → String × Column → Bool
is_column table name (t, c) = str_eq table t && str_eq name c.name

unfoldable pub find : String → String → Columns → Option Column
find table name [] = none
find table name ((t, c) ∷ cs) = if is_column table name (t, c) then some c else find table name cs

-- A list but for the elements that pass a test.
unfoldable pub reject {ℓ} : {A : Type ℓ} → (A → Bool) → List A → List A
reject p [] = []
reject p (c ∷ cs) = let rest = reject p cs in if p c then rest else c ∷ rest

-- A change of the column that passes a test.
unfoldable pub revise : (String × Column → Bool) → (Column → Column) → Columns → Columns
revise p f [] = []
revise p f ((t, c) ∷ cs) = if p (t, c) then (t, f c) ∷ cs else (t, c) ∷ revise p f cs

-- What a directive that succeeds makes of the columns, as alembic documents it.
unfoldable pub columns_after : Operation → Columns → Columns
columns_after (create_table t cs _) xs = xs ++ map (λ c. (t, c)) cs
columns_after (drop_table t) xs = reject (λ e. str_eq t e.0) xs
columns_after (add_column t c) xs = xs ++ (t, c) ∷ []
columns_after (drop_column t n) xs = reject (is_column t n) xs
columns_after (alter_nullable t n b) xs = revise (is_column t n) (λ c. record c { nullable = b }) xs
columns_after (alter_type t n _ ty) xs = revise (is_column t n) (λ c. record c { type = ty }) xs
columns_after _ xs = xs

-- What has a name of its own in the database: a second one is refused.
pub data Object : Type 0 where
  index_of type_of : String → Object
  value_of constraint_of : String → String → Object

abbrev pub same_object : Object → Object → Bool
same_object (index_of a) (index_of b) = str_eq a b
same_object (type_of a) (type_of b) = str_eq a b
same_object (value_of a v) (value_of b w) = str_eq a b && str_eq v w
same_object (constraint_of a v) (constraint_of b w) = str_eq a b && str_eq v w
same_object _ _ = false

-- The object that a directive creates, which must not be there.
unfoldable pub creates : Operation → Option Object
creates (create_type n _) = some (type_of n)
creates (add_value t v) = some (value_of t v)
creates (create_index n _ _ _) = some (index_of n)
creates (create_foreign_key n t _ _ _) = some (constraint_of n t)
creates _ = none

-- Whether a directive can take an object away: an index or a constraint goes with its table or its
-- column.
unfoldable pub can_drop : Object → Operation → Bool
can_drop (index_of n) (drop_index m _) = str_eq n m
can_drop (index_of _) (drop_table _) = true
can_drop (index_of _) (drop_column _ _) = true
can_drop (type_of n) (drop_type_if_exists m) = str_eq n m
can_drop (value_of n _) (drop_type_if_exists m) = str_eq n m
can_drop (constraint_of n t) (drop_constraint m u) = str_eq n m && str_eq t u
can_drop (constraint_of _ _) (drop_table _) = true
can_drop (constraint_of _ _) (drop_column _ _) = true
can_drop _ _ = false

-- The directive that takes back what another did, where there is one.
unfoldable pub inverse : Operation → Option Operation
inverse (create_table t _ _) = some (drop_table t)
inverse (add_column t c) = some (drop_column t c.name)
inverse (alter_nullable t n b) = some (alter_nullable t n (not b))
inverse (alter_type t n existing ty) = some (alter_type t n ty existing)
inverse (create_index n t _ _) = some (drop_index n t)
inverse (create_foreign_key n t _ _ _) = some (drop_constraint n t)
inverse _ = none

abbrev pub taken_back : Option Operation → List Operation
taken_back none = []
taken_back (some back) = back ∷ []

-- What takes back a list of directives, from the last to the first.
pub undo : List Operation → List Operation
unfolding inverse
undo [] = []
undo (op ∷ ops) = undo ops ++ taken_back (inverse op)

-- The values that directives give a type.
unfoldable pub type_values : String → List Operation → List String
type_values t [] = []
type_values t (create_type n vs ∷ ops) =
    let rest = type_values t ops in if str_eq n t then vs ++ rest else rest
type_values t (create_type_if_missing n vs ∷ ops) =
    let rest = type_values t ops in if str_eq n t then vs ++ rest else rest
type_values t (add_value n v ∷ ops) =
    let rest = type_values t ops in if str_eq n t then v ∷ rest else rest
type_values t (op ∷ ops) = type_values t ops
