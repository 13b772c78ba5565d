-- ===== src/Common/Table.antt =====
-- A table of the database: its rows by primary key, in the order of insertion.
pub mod Laws
pub mod Select
pub mod Groups
use Prim.Native.Nat.{ℕ, ◌+◌}
use mathlib.Core.Path.{◌≡◌}
use mathlib.Core.Bool.{Bool}
use mathlib.Core.Option.{Option, none, some}
use mathlib.Core.List.{List, [], ◌∷◌}
use fair_drop.Common.Tests.{◌==◌, if◌then◌else◌}

abbrev pub Table {ℓ} : Type ℓ → Type ℓ
Table V = List (ℕ × V)

module _ {ℓ} {V : Type ℓ} where
  -- `SELECT … WHERE id = k`
  unfoldable pub get : ℕ → Table V → Option V
  get k [] = none
  get k ((j, v) ∷ t) = if j == k then some v else get k t

  -- `UPDATE … WHERE id = k`
  unfoldable pub put : ℕ → V → Table V → Table V
  put k v [] = []
  put k v ((j, w) ∷ t) = if j == k then (j, v) ∷ t else (j, w) ∷ put k v t

  -- `DELETE … WHERE id = k`
  unfoldable pub delete : ℕ → Table V → Table V
  delete k [] = []
  delete k ((j, w) ∷ t) = if j == k then t else (j, w) ∷ delete k t

  -- `SELECT … WHERE p`
  unfoldable pub select : (V → Bool) → Table V → Table V
  select p [] = []
  select p ((j, v) ∷ t) = let rest = select p t in if p v then (j, v) ∷ rest else rest

  -- `SELECT sum(f) …`
  unfoldable pub sum : (V → ℕ) → Table V → ℕ
  sum f [] = 0
  sum f ((j, v) ∷ t) = f v + sum f t

  -- Primary keys are distinct.
  abbrev pub IsKeyed : Table V → Type ℓ
  IsKeyed [] = Unit
  IsKeyed ((j, v) ∷ t) = (get j t ≡ none) × IsKeyed t
