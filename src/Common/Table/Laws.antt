-- ===== src/Common/Table/Laws.antt =====
-- How each write of a table changes a read and a sum over its rows.
use Prim.Native.Nat.{ℕ, ◌+◌, ◌≤◌}
use mathlib.Core.Path.{◌≡◌, refl}
use mathlib.Core.Option.{none, some}
use mathlib.Core.List.{[], ◌∷◌, ◌++◌}
use native.Mathlib.Omega.{arith}
use fair_drop.Common.Tests.{◌==◌, if◌then◌else◌}
use fair_drop.Common.Table.{Table, get, put, delete, sum, IsKeyed}

module _ {ℓ} {V : Type ℓ} where
  pub get-put :
      (j k : ℕ) (v old : V) (t : Table V)
      → get k t ≡ some old
      → get j (put k v t) ≡ (if k == j then some v else get j t)
  unfolding get put
  get-put j k v old [] h = ground arith
  get-put j k v old ((i, w) ∷ t) h = ground (arith, get-put j k v old t)

  pub get-append :
      (j k : ℕ) (v : V) (t : Table V)
      → get k t ≡ none
      → get j (t ++ (k, v) ∷ []) ≡ (if k == j then some v else get j t)
  unfolding get
  get-append j k v [] h = refl
  get-append j k v ((i, w) ∷ t) h = ground (arith, get-append j k v t)

  pub get-delete :
      (j k : ℕ) (t : Table V) → IsKeyed t → get j (delete k t) ≡ (if k == j then none else get j t)
  unfolding get delete
  get-delete j k [] h = ground arith
  get-delete j k ((i, w) ∷ t) h = ground (arith, get-delete j k t h.1)

  get-put-none : (j k : ℕ) (v : V) (t : Table V) → get j t ≡ none → get j (put k v t) ≡ none
  unfolding get put
  get-put-none j k v [] h = refl
  get-put-none j k v ((i, w) ∷ t) h = ground (arith, get-put-none j k v t)

  pub put-IsKeyed : (k : ℕ) (v : V) (t : Table V) → IsKeyed t → IsKeyed (put k v t)
  unfolding put
  put-IsKeyed k v [] h = tt
  put-IsKeyed k v ((i, w) ∷ t) h = ground (arith, put-IsKeyed k v t h.1, get-put-none i k v t h.0)

  pub append-IsKeyed :
      (k : ℕ) (v : V) (t : Table V) → get k t ≡ none → IsKeyed t → IsKeyed (t ++ (k, v) ∷ [])
  unfolding get
  append-IsKeyed k v [] e h = (refl, tt)
  append-IsKeyed k v ((i, w) ∷ t) e h = ground (arith, append-IsKeyed k v t, get-append i k v t)

  pub delete-IsKeyed : (k : ℕ) (t : Table V) → IsKeyed t → IsKeyed (delete k t)
  unfolding delete
  delete-IsKeyed k [] h = tt
  delete-IsKeyed k ((i, w) ∷ t) h = ground (arith, delete-IsKeyed k t h.1, get-delete i k t h.1)

  pub sum-put :
      (f : V → ℕ) (k : ℕ) (v old : V) (t : Table V)
      → get k t ≡ some old
      → sum f (put k v t) + f old ≡ sum f t + f v
  unfolding get put sum
  sum-put f k v old [] h = ground arith
  sum-put f k v old ((i, w) ∷ t) h = ground (arith, sum-put f k v old t)

  pub sum-append :
      (f : V → ℕ) (k : ℕ) (v : V) (t : Table V) → sum f (t ++ (k, v) ∷ []) ≡ sum f t + f v
  unfolding sum
  sum-append f k v [] = omega arith
  sum-append f k v ((i, w) ∷ t) = omega (arith, sum-append f k v t)

  pub le-sum : (f : V → ℕ) (k : ℕ) (v : V) (t : Table V) → get k t ≡ some v → f v ≤ sum f t
  unfolding get sum
  le-sum f k v [] h = ground arith
  le-sum f k v ((i, w) ∷ t) h = ground (arith, le-sum f k v t)
