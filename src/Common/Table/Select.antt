-- ===== src/Common/Table/Select.antt =====
-- What a `SELECT … WHERE` returns: the rows that satisfy the condition, and no other.
use Prim.Native.Nat.{ℕ}
use mathlib.Core.Path.{◌≡◌, refl, sym, ap, ◌∙◌}
use mathlib.Core.Logic.{inl, inr}
use mathlib.Core.Bool.{Bool, true, false}
use mathlib.Core.Option.{none, some}
use mathlib.Core.List.{[], ◌∷◌, ◌++◌}
use native.Mathlib.Omega.{arith}
use fair_drop.Common.Tests.{Bool-cases, ◌==◌}
use fair_drop.Common.Lists.{All}
use fair_drop.Common.Table.{Table, get, select, IsKeyed}

module _ {ℓ} {V : Type ℓ} (p : V → Bool) where
  -- A selected row is in the table under its key, and satisfies the condition.
  abbrev pub IsRow : Table V → ℕ × V → Type ℓ
  IsRow t (k, v) = (get k t ≡ some v) × (p v ≡ true)

  get-head : (i : ℕ) (w : V) (t : Table V) → get i ((i, w) ∷ t) ≡ some w
  unfolding get
  get-head i w t = ground arith

  -- A row below the first is found below it.
  get-cons :
      (i : ℕ) (w : V) (k : ℕ) (v : V) (t : Table V)
      → get i t ≡ none
      → get k t ≡ some v
      → get k ((i, w) ∷ t) ≡ some v
  unfolding get
  get-cons i w k v t e h = ground arith

  IsRow-cons :
      (i : ℕ) (w : V) (t : Table V) (rows : Table V)
      → get i t ≡ none
      → All (IsRow t) rows
      → All (IsRow ((i, w) ∷ t)) rows
  unfolding get
  IsRow-cons i w t [] e h = tt
  IsRow-cons i w t ((k, v) ∷ rows) e h =
      ((get-cons i w k v t e h.0.0, h.0.1), IsRow-cons i w t rows e h.1)

  -- A query returns rows of the table that satisfy its condition.
  pub select_sound : (t : Table V) → IsKeyed t → All (IsRow t) (select p t)
  unfolding select
  select_sound [] h = tt
  select_sound ((i, w) ∷ t) h = elim (Bool-cases (p w)) [
    | inl hit ↦
        rw (hit, select)
          ((get-head i w t, hit), IsRow-cons i w t (select p t) h.0 (select_sound t h.1))
    | inr miss ↦ rw (miss, select) (IsRow-cons i w t (select p t) h.0 (select_sound t h.1))
  ]

  -- Where no row satisfies the condition the result is empty.
  pub select_empty :
      (t : Table V)
      → IsKeyed t
      → ((k : ℕ) (v : V) → get k t ≡ some v → p v ≡ false)
      → select p t ≡ []
  unfolding select
  select_empty [] h miss = refl
  select_empty ((i, w) ∷ t) h miss =
      rw (miss i w (get-head i w t), select)
        (select_empty t h.1 (λ k v e. miss k v (get-cons i w k v t h.0 e)))

  others_miss :
      (i : ℕ) (w : V) (t : Table V) (k : ℕ) (v : V)
      → get i t ≡ none
      → ((j : ℕ) (u : V) → get j ((i, w) ∷ t) ≡ some u → p u ≡ true → j ≡ i)
      → get k t ≡ some v
      → p v ≡ false
  others_miss i w t k v e only found = elim (Bool-cases (p v)) [
    | inl hit ↦ cc (only k v (get-cons i w k v t e found) hit)
    | inr miss ↦ miss
  ]

  -- Where one row satisfies it, and no other, the result is that row.
  pub select_one :
      (k : ℕ) (v : V) (t : Table V)
      → IsKeyed t
      → get k t ≡ some v
      → p v ≡ true
      → ((j : ℕ) (w : V) → get j t ≡ some w → p w ≡ true → j ≡ k)
      → select p t ≡ (k, v) ∷ []
  unfolding select
  select_one k v [] h e hit only = unfold get in cc
  select_one k v ((i, w) ∷ t) h e hit only = elim (Bool-cases (p w)) [
    | inl first ↦
        let here : i ≡ k = only i w (get-head i w t) first in
        let same : w ≡ v = unfold get in ground arith in
        rw (first, here, same, select)
          (ap (λ rows. (k, v) ∷ rows)
            (select_empty t h.1 (λ j u found.
              others_miss i w t j u h.0 (λ m x at yes'. only m x at yes' ∙ sym here) found)))
    | inr miss ↦
        rw (miss, select)
          (select_one k v t h.1 (unfold get in ground arith) hit
            (λ j u found. only j u (get-cons i w j u t h.0 found)))
  ]

  -- An empty result means that no row satisfies the condition.
  pub empty_select :
      (t : Table V) (k : ℕ) (v : V) → select p t ≡ [] → get k t ≡ some v → p v ≡ false
  unfolding select get
  empty_select [] k v h e = cc
  empty_select ((i, w) ∷ t) k v h e = elim (Bool-cases (p w)) [
    | inl hit ↦ absurd (ground arith)
    | inr miss ↦ elim (Bool-cases (i == k)) [
      | inl here ↦ ground arith
      | inr other ↦ empty_select t k v (ground arith) (ground arith)
    ]
  ]

  -- A row that is inserted into a table where none satisfied the condition.
  pub select-append :
      (k : ℕ) (v : V) (t : Table V)
      → select p t ≡ []
      → p v ≡ true
      → select p (t ++ (k, v) ∷ []) ≡ (k, v) ∷ []
  unfolding select
  select-append k v [] e hit = rw hit
  select-append k v ((i, w) ∷ t) e hit = elim (Bool-cases (p w)) [
    | inl first ↦ absurd (ground arith)
    | inr miss ↦ rw miss (select-append k v t (ground arith) hit)
  ]
