-- ===== src/Common/Table/Groups.antt =====
-- `ORDER BY … DESC`, and `SELECT key, count(…) … GROUP BY key` for keys that are numbers.
use Prim.Native.Nat.{ℕ, suc, ◌+◌}
use mathlib.Core.Path.{◌≡◌, refl}
use mathlib.Core.Logic.{inl, inr}
use mathlib.Core.Bool.{Bool, ◌&&◌}
use mathlib.Core.List.{[], ◌∷◌}
use native.Mathlib.Omega.{arith}
use fair_drop.Common.Tests.{◌==◌, leb, if◌then◌else◌, Bool-cases}
use fair_drop.Common.Lists.{length}
use fair_drop.Common.Table.{Table, select}

-- The groups so far, with one more row of the key `k`.
pub bump : ℕ → Table ℕ → Table ℕ
bump k [] = (k, 1) ∷ []
bump k ((j, n) ∷ groups) = if j == k then (j, suc n) ∷ groups else (j, n) ∷ bump k groups

-- `counts.get(k, 0)`
pub count_of : ℕ → Table ℕ → ℕ
count_of k [] = 0
count_of k ((j, n) ∷ groups) = if j == k then n else count_of k groups

-- `sum(counts.values())`
pub total : Table ℕ → ℕ
total [] = 0
total ((j, n) ∷ groups) = n + total groups

count_of-bump :
    (k j : ℕ) (groups : Table ℕ)
    → count_of k (bump j groups) ≡ (if j == k then suc (count_of k groups) else count_of k groups)
unfolding count_of bump
count_of-bump k j [] = ground arith
count_of-bump k j ((i, n) ∷ groups) = ground (arith, count_of-bump k j groups)

total-bump : (j : ℕ) (groups : Table ℕ) → total (bump j groups) ≡ suc (total groups)
unfolding total bump
total-bump j [] = refl
total-bump j ((i, n) ∷ groups) = ground (arith, total-bump j groups)

module _ {ℓ} {V : Type ℓ} (f : V → ℕ) where
  pub group : Table V → Table ℕ
  group [] = []
  group ((_, v) ∷ t) = bump (f v) (group t)

  -- A group counts the rows with its key.
  pub count_of-group :
      (k : ℕ) (t : Table V) → count_of k (group t) ≡ length (select (λ v. f v == k) t)
  unfolding count_of group select
  count_of-group k [] = refl
  count_of-group k ((i, v) ∷ t) =
      ground (arith, count_of-bump k (f v) (group t), count_of-group k t)

  -- The groups hold all the rows.
  pub total-group : (t : Table V) → total (group t) ≡ length t
  unfolding total group
  total-group [] = refl
  total-group ((i, v) ∷ t) = ground (arith, total-bump (f v) (group t), total-group t)

  unfoldable pub insert_desc : ℕ × V → Table V → Table V
  insert_desc v [] = v ∷ []
  insert_desc v (w ∷ rows) =
      let rest = insert_desc v rows in if leb (f w.1) (f v.1) then v ∷ w ∷ rows else w ∷ rest

  -- An insertion sort, the greatest first.
  unfoldable pub sort_desc : Table V → Table V
  sort_desc [] = []
  sort_desc (v ∷ rows) = insert_desc v (sort_desc rows)

  length-insert_desc : (v : ℕ × V) (t : Table V) → length (insert_desc v t) ≡ suc (length t)
  unfolding insert_desc
  length-insert_desc v [] = refl
  length-insert_desc v (w ∷ rows) = ground (arith, length-insert_desc v rows)

  pub length-sort_desc : (t : Table V) → length (sort_desc t) ≡ length t
  unfolding sort_desc
  length-sort_desc [] = refl
  length-sort_desc (v ∷ rows) =
      ground (arith, length-insert_desc v (sort_desc rows), length-sort_desc rows)

-- A condition after another is their conjunction.
pub select-select {ℓ} :
    {V : Type ℓ} (p q : V → Bool) (t : Table V) → select q (select p t) ≡ select (λ v. p v && q v) t
unfolding select
select-select p q [] = refl
select-select p q ((i, v) ∷ t) = elim (Bool-cases (p v)) [
  | inl hit ↦ ground (arith, select-select p q t)
  | inr miss ↦ ground (arith, select-select p q t)
]
